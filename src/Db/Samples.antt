-- ===== src/Db/Samples.antt =====
-- A driver for examples: it connects to everything, and refuses index keys from a map of several keys.
use rea_time_chat_g_rpc.Base.{
  ℕ, suc, ◌<◌, ◌≡◌, inl, inr, Bool, true, false, ◌||◌, none, some, List, [], ◌∷◌, arith, codes,
  length, Has, ltb, if◌then◌else◌, ok, ap,
}
use rea_time_chat_g_rpc.Errors.{message}
use rea_time_chat_g_rpc.Db.{IndexModel, Driver}
use rea_time_chat_g_rpc.Db.Indexes.{RefusesMaps}

abbrev ambiguous : List IndexModel → Bool
ambiguous [] = false
ambiguous (m ∷ ms) = ltb 1 (length m.keys) || ambiguous ms

abbrev pub strict : Driver Unit ℕ
strict = record {
  connect = λ uri w. (ok tt, suc w);
  ping = λ c w. (none, w);
  disconnect = λ c w. (none, w);
  create_one = λ c coll m w. (none, w);
  create_many = λ c coll ms w.
      if ambiguous ms then (some (message (codes "multi-key map")), w) else (none, w);
}

ambiguous-Has :
    (ms : List IndexModel) (m : IndexModel) → Has m ms → 1 < length m.keys → ambiguous ms ≡ true
ambiguous-Has [] m h l = absurd h
ambiguous-Has (x ∷ ms) m (inl e) l = ground (arith, ap (λ y. length (y.keys)) e)
ambiguous-Has (x ∷ ms) m (inr h) l = ground (arith, ambiguous-Has ms m h l)

pub strict-RefusesMaps : RefusesMaps strict
strict-RefusesMaps c coll ms m w h l = ground (arith, ambiguous-Has ms m h l)
