-- ===== src/Dealer/Options.antt =====
-- The checks of `generateDealerOutput` of projects/dealer/src/dealer.ts: what the options come to.
use decentralized_identity_p.Prelude.{
  ℕ, ℤ, pos, pos_part, ltb_ℤ, String, Bool, true, false, not, ◌||◌, ◌==◌, Option, none, some, List,
  [], ◌∷◌, is_empty, includes, ok, ◌>>◌, throw_if,
}
use decentralized_identity_p.Dealer.{
  UserSpec, DealerOptions, Deals, not_integers, bad_total, bad_threshold, empty_key_id, no_users,
  empty_username, empty_sub, duplicate_username, duplicate_sub,
}

abbrev pub default_threshold : ℤ
default_threshold = pos 2

abbrev pub default_total : ℤ
default_total = pos 3

abbrev pub dealer_key_id : String
dealer_key_id = "pasta-group-key-1"

abbrev pub default_users : List UserSpec
default_users =
    record { username = "alice"; password = "password123"; sub = "usr_alice_12345" }
    ∷ record { username = "bob"; password = "password456"; sub = "usr_bob_67890" }
    ∷ []

-- The loop over the users, with the names and the subjects seen.
unfoldable pub check_users : List String → List String → List UserSpec → Deals (Unit {0})
check_users names subs [] = ok tt
check_users names subs (u ∷ users) = do
  throw_if (is_empty u.username) empty_username
  throw_if (is_empty u.sub) empty_sub
  throw_if (includes u.username names) duplicate_username
  throw_if (includes u.sub subs) duplicate_sub
  check_users (u.username ∷ names) (u.sub ∷ subs) users

abbrev pub no_user : List UserSpec → Bool
no_user [] = true
no_user (u ∷ users) = false

abbrev is_whole : ℤ × ℕ → Bool
is_whole (z, m) = m == 0

abbrev pub given : {A : Type 0} → Option A → A → A
given none otherwise = otherwise
given (some a) otherwise = a

-- What the options come to: the threshold, the total, the key id and the users.
unfoldable pub checked_options : DealerOptions → Deals (ℕ × ℕ × String × List UserSpec)
checked_options options = do
  let threshold = given options.threshold (default_threshold, 0)
  let total = given options.total (default_total, 0)
  let key_id = given options.key_id dealer_key_id
  let users = given options.users default_users
  throw_if (not (is_whole threshold) || not (is_whole total)) not_integers
  throw_if (ltb_ℤ total.0 (pos 1)) bad_total
  throw_if (ltb_ℤ threshold.0 (pos 1) || ltb_ℤ total.0 threshold.0) bad_threshold
  throw_if (is_empty key_id) empty_key_id
  throw_if (no_user users) no_users
  check_users [] [] users
  ok (pos_part threshold.0, pos_part total.0, key_id, users)
