-- ===== src/Data/Tests.antt =====
-- Two spellings of one account, and a conversation of two messages.
use rea_time_chat_g_rpc.Base.{
  ◌≡◌, refl, List, [], ◌∷◌, arith, codes, text_discrete, ℕ_discrete, pos, ok, Result,
}
use rea_time_chat_g_rpc.Errors.{Error}
use rea_time_chat_g_rpc.Normalize.{email}
use rea_time_chat_g_rpc.Data.Models.{User, Message}
use rea_time_chat_g_rpc.Data.Users.{create_user, get_user_by_email, user_exists, new_user}
use rea_time_chat_g_rpc.Data.Users.Soundness.{IsSound, create_user-IsSound}
use rea_time_chat_g_rpc.Data.Messages.{
  save_message, get_message_history, reverse_messages, history_filter, swap_loop, swap, new_message,
}
use rea_time_chat_g_rpc.Base.{reverse}
use rea_time_chat_g_rpc.Data.Messages.Reversal.{reverse_messages-reverse}
use rea_time_chat_g_rpc.Data.Messages.History.{IsHistory, get_message_history_ok}
use rea_time_chat_g_rpc.Data.Samples.{
  accounts, accounts-IsUsersColl, mailbox, mailbox-IsMessagesColl,
}
use rea_time_chat_g_rpc.Samples.{ascii, ascii-IsCaseTable, ann, bob, spaced_bob}

abbrev bob_user : User
bob_user = record { id = 0; email = bob; password = codes "h"; created_at = 1; updated_at = 2 }

abbrev made : Result Error User × List User
made = create_user ascii accounts spaced_bob (codes "h") 1 2 []

program : Unit {0}
unfolding new_user create_user get_user_by_email user_exists email text_discrete ℕ_discrete
    save_message get_message_history history_filter reverse_messages swap_loop swap new_message
program = tt

made_ok : made.0 ≡ ok bob_user
unfolding program
made_ok = refl

create_user-IsSound_example : IsSound ascii made.1
create_user-IsSound_example =
    create_user-IsSound ascii ascii-IsCaseTable accounts (λ us. us) accounts-IsUsersColl spaced_bob
      (codes "h") 1 2 [] (record { normal = tt; unique = λ e. omega arith })

abbrev first : Message
first = record {
  id = 0;
  from_email = ann;
  to_email = bob;
  content = codes "hi";
  sent_at = 5;
  created_at = 6;
}

abbrev second : Message
second = record {
  id = 1;
  from_email = bob;
  to_email = ann;
  content = codes "ho";
  sent_at = 7;
  created_at = 8;
}

abbrev saved : Result Error Message × List Message
saved = save_message ascii mailbox spaced_bob ann (codes "ho") 7 8 (first ∷ [])

conversation :
    get_message_history ascii mailbox ann bob (pos 2) (first ∷ second ∷ [])
    ≡ ok (first ∷ second ∷ [])
unfolding program
conversation = refl

get_message_history_ok_example :
    IsHistory ascii mailbox
      (λ ms. ms)
      mailbox-IsMessagesColl
      ann
      bob
      1
      (first ∷ second ∷ [])
      (first ∷ second ∷ [])
get_message_history_ok_example =
    get_message_history_ok ascii mailbox (λ ms. ms) mailbox-IsMessagesColl ann bob 1
      (first ∷ second ∷ []) (first ∷ second ∷ []) conversation

reverse_messages-reverse_example :
    reverse_messages (second ∷ first ∷ []) ≡ reverse (second ∷ first ∷ [])
reverse_messages-reverse_example = reverse_messages-reverse (second ∷ first ∷ [])
