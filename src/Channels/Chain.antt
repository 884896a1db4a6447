-- ===== src/Channels/Chain.antt =====
-- Which providers a chain asks, and what it answers.
use javi.Prelude.{
  ◌≡◌, refl, ◌∙◌, sym, String, Bool, true, false, List, [], ◌∷◌, ◌++◌, any, ap, if-split, ◌⊎◌, inl,
  inr,
}
use javi.Env.{AttemptResult, SendResult, MessageText}
use javi.Channels.{Provider, attempt_of, send_from, chained_send_text}

append_one :
    (xs : List AttemptResult) (a : AttemptResult) (ys : List AttemptResult)
    → (xs ++ a ∷ []) ++ ys ≡ xs ++ a ∷ ys
append_one [] a ys = refl
append_one (x ∷ xs) a ys = ap (λ t. x ∷ t) (append_one xs a ys)

append_nil : (xs : List AttemptResult) → xs ++ [] ≡ xs
append_nil [] = refl
append_nil (x ∷ xs) = ap (λ t. x ∷ t) (append_nil xs)

abbrev pub has_success : List AttemptResult → Bool
has_success attempts = any (λ (a : AttemptResult). a.succeeded) attempts

-- The last of the attempts is the first that got through, and the answer is its.
pub record IsWon (attempts : List AttemptResult) (r : SendResult) : Type 0 where
  before : List AttemptResult
  last : AttemptResult
  whole : attempts ≡ before ++ last ∷ []
  failed : has_success before ≡ false
  got_through : last.succeeded ≡ true
  succeeded : r.succeeded ≡ true
  channel : r.channel ≡ last.channel
  message : r.provider_message_id ≡ last.provider_message_id

IsWon-later :
    (a : AttemptResult) (attempts : List AttemptResult) (r : SendResult)
    → a.succeeded ≡ false
    → IsWon attempts r
    → IsWon (a ∷ attempts) r
unfolding any
IsWon-later a attempts r bad won = record {
  before = a ∷ won.before;
  last = won.last;
  whole = ap (λ t. a ∷ t) won.whole;
  failed = rw bad won.failed;
  got_through = won.got_through;
  succeeded = won.succeeded;
  channel = won.channel;
  message = won.message;
}

module _ {S : Type 0} (phone : String) (text : MessageText) where
  -- Each of some providers is called once, in order: what they answer, and the state they leave.
  abbrev pub ask_each : List (Provider S) → S → List AttemptResult × S
  ask_each [] s = ([], s)
  ask_each (p ∷ ps) s =
      let answer = p.send_text phone text s in
      let later = ask_each ps answer.1 in (attempt_of p answer.0 ∷ later.0, later.1)

  -- The providers `asked` are the first ones of the chain, and all that happened is that each of them
  -- was called once, in order. `so_far` are the attempts before.
  pub record IsChained (so_far : List AttemptResult) (ps : List (Provider S)) (s : S)
      (run : SendResult × S) : Type 0 where
    asked : List (Provider S)
    rest : List (Provider S)
    whole : ps ≡ asked ++ rest
    state : run.1 ≡ (ask_each asked s).1
    attempts : run.0.attempts ≡ so_far ++ (ask_each asked s).0
    ending :
        IsWon (ask_each asked s).0 run.0
        ⊎ ((run.0.succeeded ≡ false) × (rest ≡ []) × (has_success (ask_each asked s).0 ≡ false))

  IsChained-later :
      (so_far : List AttemptResult) (p : Provider S) (ps : List (Provider S)) (s : S)
      (run : SendResult × S)
      → let answer = p.send_text phone text s in
        answer.0.succeeded ≡ false
        → IsChained (so_far ++ attempt_of p answer.0 ∷ []) ps answer.1 run
        → IsChained so_far (p ∷ ps) s run
  unfolding any
  IsChained-later so_far p ps s run bad later = record {
    asked = p ∷ later.asked;
    rest = later.rest;
    whole = ap (λ t. p ∷ t) later.whole;
    state = later.state;
    attempts = later.attempts ∙ append_one so_far _ _;
    ending = elim later.ending [
      | inl won ↦ inl (IsWon-later _ _ run.0 bad won)
      | inr (lost, all, none_won) ↦ inr (lost, all, rw bad none_won)
    ];
  }

  IsChained-now :
      (so_far : List AttemptResult) (p : Provider S) (ps : List (Provider S)) (s : S)
      → let answer = p.send_text phone text s in
        let attempt = attempt_of p answer.0 in
        answer.0.succeeded ≡ true
        → IsChained so_far (p ∷ ps) s (
          record {
            succeeded = true;
            provider_message_id = attempt.provider_message_id;
            channel = attempt.channel;
            attempts = so_far ++ attempt ∷ [];
          },
          answer.1,
        )
  unfolding any
  IsChained-now so_far p ps s good = record {
    asked = p ∷ [];
    rest = ps;
    whole = refl;
    state = refl;
    attempts = refl;
    ending = inl (record {
      before = [];
      last = attempt_of p (p.send_text phone text s).0;
      whole = refl;
      failed = refl;
      got_through = good;
      succeeded = refl;
      channel = refl;
      message = refl;
    });
  }

  send_from_lem :
      (so_far : List AttemptResult) (ps : List (Provider S)) (s : S)
      → IsChained so_far ps s (send_from phone text so_far ps s)
  unfolding send_from any
  send_from_lem so_far [] s = record {
    asked = [];
    rest = [];
    whole = refl;
    state = refl;
    attempts = sym (append_nil so_far);
    ending = inr (refl, refl, refl);
  }
  send_from_lem so_far (p ∷ ps) s =
      let answer = p.send_text phone text s in
      let attempt = attempt_of p answer.0 in
      let all = so_far ++ attempt ∷ [] in
      if-split (IsChained so_far (p ∷ ps) s) answer.0.succeeded
        (
          record {
            succeeded = true;
            provider_message_id = attempt.provider_message_id;
            channel = attempt.channel;
            attempts = all;
          },
          answer.1,
        )
        (send_from phone text all ps answer.1) (λ good. IsChained-now so_far p ps s good)
        (λ bad. IsChained-later so_far p ps s _ bad (send_from_lem all ps answer.1))

  -- A chain calls its first providers, each once and in order, and no other: the attempts that it
  -- answers and the state that it leaves are those of these calls. Either the last of them is the
  -- first that got through, and the chain answers its channel and its message, or all providers were
  -- called, none got through, and the chain has failed.
  pub chained_send_text_lem :
      (ps : List (Provider S)) (s : S) → IsChained [] ps s (chained_send_text phone text ps s)
  unfolding chained_send_text
  chained_send_text_lem ps s = send_from_lem [] ps s
