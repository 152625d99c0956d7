-- ===== src/Connection/Control/Listing.antt =====
-- What a LIST collects (`collect_sessions` of jftermd/src/server.rs).
use jfterm_muxer.Base.{
  ℕ, ◌≤◌, ◌<◌, ◌≡◌, refl, ap, ◌∙◌, none, some, List, [], ◌∷◌, ◌++◌, arith, true, false, leb, All,
  ◌>>=◌,
}
use jfterm_muxer.Registry.{Registry, handles}
use jfterm_muxer.Session.{SessionInfo}
use jfterm_muxer.Connection.Control.{
  Ask, gone, full, never, replies, drops, reply_timeout, asks, send_all, await_replies,
  collect_sessions,
}

-- The question is done with before the deadline.
abbrev pub IsPrompt : Ask → Type 0
IsPrompt gone = Unit {0}
IsPrompt full = ⊥
IsPrompt never = ⊥
IsPrompt (replies after info) = after ≤ reply_timeout
IsPrompt (drops after) = after ≤ reply_timeout

-- The first question of a list is not.
abbrev pub StartsLate : List Ask → Type 0
StartsLate [] = Unit {0}
StartsLate (gone ∷ qs) = ⊥
StartsLate (full ∷ qs) = ⊥
StartsLate (never ∷ qs) = Unit {0}
StartsLate (replies after info ∷ qs) = reply_timeout < after
StartsLate (drops after ∷ qs) = reply_timeout < after

abbrev pub HasRoom : Ask → Type 0
HasRoom full = ⊥
HasRoom _ = Unit {0}

abbrev pub infos_of : List Ask → List SessionInfo
infos_of [] = []
infos_of (replies after info ∷ qs) = info ∷ infos_of qs
infos_of (_ ∷ qs) = infos_of qs

record Dispatched (xs ys : List Ask) : Type 0 where
  rxs : List Ask
  sent : send_all (xs ++ ys) ≡ some rxs
  answers : await_replies rxs ≡ infos_of xs

prompt_true : (after : ℕ) → after ≤ reply_timeout → leb after reply_timeout ≡ true
prompt_true after h = ground arith

-- A question that is sent stands before those that were sent after it.
sent_cons :
    (a : Ask) (qs rxs : List Ask)
    → send_all qs ≡ some rxs
    → (send_all qs >>= (λ rs. some (a ∷ rs))) ≡ some (a ∷ rxs)
sent_cons a qs rxs e = rw e refl

room_sends : (ys : List Ask) → All HasRoom ys → (rxs : List Ask) × (send_all ys ≡ some rxs)
unfolding send_all
room_sends [] r = ([], refl)
room_sends (gone ∷ ys) r = room_sends ys r.1
room_sends (full ∷ ys) r = absurd r.0
room_sends (never ∷ ys) r =
    let (rxs, e) = room_sends ys r.1 in (never ∷ rxs, sent_cons never ys rxs e)
room_sends (replies after info ∷ ys) r =
    let (rxs, e) = room_sends ys r.1 in
    (replies after info ∷ rxs, sent_cons (replies after info) ys rxs e)
room_sends (drops after ∷ ys) r =
    let (rxs, e) = room_sends ys r.1 in (drops after ∷ rxs, sent_cons (drops after) ys rxs e)

late-Dispatched : (ys : List Ask) → StartsLate ys → All HasRoom ys → Dispatched [] ys
unfolding send_all await_replies
late-Dispatched [] l r = record { rxs = []; sent = refl; answers = refl }
late-Dispatched (gone ∷ ys) l r = absurd l
late-Dispatched (full ∷ ys) l r = absurd l
late-Dispatched (never ∷ ys) l r =
    let (rxs, e) = room_sends ys r.1 in
    record { rxs = never ∷ rxs; sent = sent_cons never ys rxs e; answers = refl }
late-Dispatched (replies after info ∷ ys) l r =
    let (rxs, e) = room_sends ys r.1 in
    let late : leb after reply_timeout ≡ false = ground arith in
    record {
      rxs = replies after info ∷ rxs;
      sent = sent_cons (replies after info) ys rxs e;
      answers = rw late refl;
    }
late-Dispatched (drops after ∷ ys) l r =
    let (rxs, e) = room_sends ys r.1 in
    let late : leb after reply_timeout ≡ false = ground arith in
    record {
      rxs = drops after ∷ rxs;
      sent = sent_cons (drops after) ys rxs e;
      answers = rw late refl;
    }

prompt-Dispatched :
    (xs ys : List Ask) → All IsPrompt xs → StartsLate ys → All HasRoom ys → Dispatched xs ys
unfolding send_all await_replies
prompt-Dispatched [] ys p l r = late-Dispatched ys l r
prompt-Dispatched (gone ∷ xs) ys p l r =
    let x = prompt-Dispatched xs ys p.1 l r in
    record { rxs = x.rxs; sent = x.sent; answers = x.answers }
prompt-Dispatched (full ∷ xs) ys p l r = absurd p.0
prompt-Dispatched (never ∷ xs) ys p l r = absurd p.0
prompt-Dispatched (replies after info ∷ xs) ys p l r =
    let x = prompt-Dispatched xs ys p.1 l r in
    record {
      rxs = replies after info ∷ x.rxs;
      sent = sent_cons (replies after info) (xs ++ ys) x.rxs x.sent;
      answers = rw (prompt_true after p.0) (ap (◌∷◌ info) x.answers);
    }
prompt-Dispatched (drops after ∷ xs) ys p l r =
    let x = prompt-Dispatched xs ys p.1 l r in
    record {
      rxs = drops after ∷ x.rxs;
      sent = sent_cons (drops after) (xs ++ ys) x.rxs x.sent;
      answers = rw (prompt_true after p.0) x.answers;
    }

-- LIST reports, in the order of the table, the sessions that answer, up to the first one that is late:
-- when the actors asked before some point are all done by the deadline (they answered, dropped the
-- question or had ended) and the next one is not, the answers before that point are the result.
-- No actor's queue is full.
pub collect_sessions-prompt :
    (r : Registry) (ask : ℕ → Ask) (xs ys : List Ask)
    → asks ask (handles r) ≡ xs ++ ys
    → All IsPrompt xs
    → StartsLate ys
    → All HasRoom ys
    → collect_sessions r ask ≡ some (infos_of xs)
unfolding collect_sessions
collect_sessions-prompt r ask xs ys e p l h =
    let x = prompt-Dispatched xs ys p l h in
    let sent : send_all (asks ask (handles r)) ≡ some x.rxs = ap send_all e ∙ x.sent in
    rw sent (ap some x.answers)

send_all-full : (xs ys : List Ask) → send_all (xs ++ (full ∷ ys)) ≡ none
unfolding send_all
send_all-full [] ys = refl
send_all-full (gone ∷ xs) ys = send_all-full xs ys
send_all-full (full ∷ xs) ys = refl
send_all-full (never ∷ xs) ys = rw (send_all-full xs ys) refl
send_all-full (replies after info ∷ xs) ys = rw (send_all-full xs ys) refl
send_all-full (drops after ∷ xs) ys = rw (send_all-full xs ys) refl

-- A LIST waits, whatever the deadline and the other actors' answers, while the queue of one actor is
-- full.
pub collect_sessions-waits :
    (r : Registry) (ask : ℕ → Ask) (xs ys : List Ask)
    → asks ask (handles r) ≡ xs ++ (full ∷ ys)
    → collect_sessions r ask ≡ none
unfolding collect_sessions
collect_sessions-waits r ask xs ys e =
    let sent : send_all (asks ask (handles r)) ≡ none = ap send_all e ∙ send_all-full xs ys in
    rw sent refl
