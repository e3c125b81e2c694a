-- ===== src/Hub/Samples.antt =====
-- Streams for examples, one of them broken, and the log of what they carry.
use rea_time_chat_g_rpc.Base.{
  ℕ, ◌≡◌, Bool, not, ◌&&◌, none, some, List, [], ◌∷◌, ◌++◌, arith, codes, ℕ_discrete, ◌==◌,
  if◌then◌else◌, is_yes, ite, true,
}
use rea_time_chat_g_rpc.Errors.{eof}
use rea_time_chat_g_rpc.Wire.{ChatStreamResponse, StreamSender}
use rea_time_chat_g_rpc.Hub.Broadcast.{Log}
use rea_time_chat_g_rpc.Samples.{ann}

-- The world is the log of what was sent; stream 7 is broken.
abbrev pub Wires : Type 0
Wires = List (ℕ × ChatStreamResponse)

abbrev pub broken : ℕ → Bool
broken s = s == 7

abbrev pub net : StreamSender ℕ Wires
net = record { send = λ s r w. if s == 7 then (some eof, w) else (none, w ++ (s, r) ∷ []) }

pub net_fates :
    (s : ℕ) (r : ChatStreamResponse) (w : Wires)
    → elim (net.send s r w).0 [ none ↦ Bool.false | some e ↦ true ] ≡ broken s
net_fates s r w = ground arith

abbrev pub carried : Wires → ℕ → List ChatStreamResponse
carried [] t = []
carried ((s, r) ∷ w) t = ite (ℕ_discrete s t) (r ∷ carried w t) (carried w t)

carried-append :
    (w : Wires) (s t : ℕ) (r : ChatStreamResponse)
    → carried (w ++ (s, r) ∷ []) t ≡ ite (ℕ_discrete s t) (carried w t ++ r ∷ []) (carried w t)
carried-append [] s t r = ground arith
carried-append ((u, q) ∷ w) s t r = ground (arith, carried-append w s t r)

pub net_logs :
    (s t : ℕ) (r : ChatStreamResponse) (w : Wires)
    → carried (net.send s r w).1 t
      ≡ (if is_yes (ℕ_discrete s t) && not (broken s) then carried w t ++ r ∷ [] else carried w t)
net_logs s t r w = ground (arith, carried-append w s t r)

abbrev pub net-Log : Log net broken
net-Log = record { same = ℕ_discrete; received = carried; logs = net_logs }

abbrev pub hello : ChatStreamResponse
hello = record { msg_id = codes "1"; from_email = ann; content = codes "hi"; sent_at = 5 }
