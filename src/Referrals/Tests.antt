-- ===== src/Referrals/Tests.antt =====
-- A player makes a code, a second binds to it, and the first may not bind to its own.
use xgamefi.Prelude.{
  ℕ, ◌≡◌, refl, none, some, List, [], ◌∷◌, Text, codes, find, update, text_eq, count,
}
use xgamefi.Access.Guards.{Accounts, player_subject, get_principal}
use xgamefi.Access.RateLimit.{rate_limit}
use xgamefi.Access.Samples.{accounts, counters}
use xgamefi.Routes.StudioPatch.{replied, failed}
use xgamefi.Referrals.{Book, try_codes, create_code, bind_referral, gen_code, referred_by}
use xgamefi.Referrals.Linked.{
  AllLinked, find_referee, creates, binds, Steps, here, next, Steps-AllLinked,
}
use xgamefi.Samples.{player, id_text}

abbrev signed_up : Accounts
signed_up = record accounts { players = player 41 801 ∷ player 42 802 ∷ [] }

abbrev random : ℕ → List ℕ
random n = 0 ∷ 1 ∷ 2 ∷ 3 ∷ 4 ∷ 5 ∷ 35 ∷ n ∷ []

abbrev code : Text
code = gen_code (random 4)

abbrev start : Book (List Text)
start = record {
  counters = [];
  players =
      record { id = 41; referred_by_player_id = none }
      ∷ record { id = 42; referred_by_player_id = none }
      ∷ [];
  referrals = [];
}

abbrev with_code : Book (List Text)
with_code = (create_code counters id_text signed_up (some (player_subject 41)) random 1 start).1

abbrev with_referee : Book (List Text)
with_referee =
    (bind_referral counters id_text signed_up (some (player_subject 42)) (some code) none 2
      with_code).1

abbrev life : Steps counters id_text start with_referee
life =
    next (creates signed_up (some (player_subject 41)) random 1 start)
      (next (binds signed_up (some (player_subject 42)) (some code) none 2 with_code) here)

code_run :
    (create_code counters id_text signed_up (some (player_subject 41)) random 1 start).0
    ≡ replied (codes "ABCDEF9E")
unfolding create_code try_codes rate_limit get_principal find count text_eq
code_run = refl

bound_run : referred_by (find_referee 42 with_referee.players) ≡ some 41
unfolding create_code try_codes bind_referral rate_limit get_principal find update count text_eq
bound_run = refl

own_code_run :
    (bind_referral counters id_text signed_up
      (some (player_subject 41))
      none
      (some code)
      2
      with_code).0
    ≡ failed 409
unfolding create_code try_codes bind_referral rate_limit get_principal find update count text_eq
own_code_run = refl

Steps-AllLinked_example : AllLinked with_referee
Steps-AllLinked_example = Steps-AllLinked counters id_text life tt
