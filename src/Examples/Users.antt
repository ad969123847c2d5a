-- ===== src/Examples/Users.antt =====
-- Runs of the user operations on small stores.
use better_auth_rs_worker.Prelude.{String, ◌≡◌, refl, none, some, ◌↔◌, arith, inl, eq_iff}
use better_auth_rs_worker.Error.{ok}
use better_auth_rs_worker.HashMap.{get, insert, contains_key}
use better_auth_rs_worker.Entity.{User, CreateUser, UpdateUser}
use better_auth_rs_worker.Entity.Users.{from_create}
use better_auth_rs_worker.Memory.{MemoryDatabaseAdapter, new}
use better_auth_rs_worker.Memory.UserOps.{create_user, update_user, delete_user, get_user_by_email}
use better_auth_rs_worker.Memory.UserOps.Index.{
  UsersIndexed, create_user-UsersIndexed, delete_user-UsersIndexed,
}
use better_auth_rs_worker.Memory.UserOps.Lookup.{get_user_by_email_iff}
use better_auth_rs_worker.Memory.UserOps.Update.{update_user-UsersIndexed, update_user_steals}

abbrev named : String → String → CreateUser
named email username = record {
  id = none;
  email = some email;
  name = none;
  image = none;
  email_verified = none;
  password = none;
  username = some username;
  display_username = none;
  role = none;
  metadata = none;
}

abbrev alice : CreateUser
alice = named "alice@example.com" "alice"

abbrev bob : CreateUser
bob = named "bob@example.com" "bob"

abbrev moves_to : String → UpdateUser
moves_to email = record {
  email = some email;
  name = none;
  image = none;
  email_verified = none;
  username = none;
  display_username = none;
  role = none;
  banned = none;
  ban_reason = none;
  ban_expires = none;
  two_factor_enabled = none;
  metadata = none;
}

abbrev alice_user : User
alice_user = from_create "u1" alice 5

abbrev bob_user : User
bob_user = from_create "u2" bob 6

abbrev with_alice : MemoryDatabaseAdapter
with_alice = (create_user alice (ok "u1") 5 new).1

abbrev with_both : MemoryDatabaseAdapter
with_both = (create_user bob (ok "u2") 6 with_alice).1

new-UsersIndexed : UsersIndexed new
unfolding get
new-UsersIndexed = record {
  emails = record {
    sound = λ k id e. absurd (ground arith);
    complete = λ k id e. absurd (ground arith);
  };
  usernames = record {
    sound = λ k id e. absurd (ground arith);
    complete = λ k id e. absurd (ground arith);
  };
}

create_user-UsersIndexed_example : UsersIndexed (create_user alice (ok "u1") 5 new).1
unfolding get
create_user-UsersIndexed_example =
    create_user-UsersIndexed new new-UsersIndexed alice (ok "u1") 5 (λ id e. refl)

with_alice-UsersIndexed : UsersIndexed with_alice
unfolding get
with_alice-UsersIndexed =
    create_user-UsersIndexed new new-UsersIndexed alice (ok "u1") 5 (λ id e. refl)

delete_user-UsersIndexed_example : UsersIndexed (delete_user "u1" with_alice).1
delete_user-UsersIndexed_example = delete_user-UsersIndexed with_alice with_alice-UsersIndexed "u1"

get_user_by_email_iff_example :
    ((get_user_by_email "alice@example.com" with_alice).0 ≡ ok (some alice_user)) ↔ (
      (id : String) × (get id with_alice.users ≡ some alice_user)
      × (alice_user.email ≡ some "alice@example.com"))
get_user_by_email_iff_example =
    get_user_by_email_iff with_alice "alice@example.com" alice_user with_alice-UsersIndexed

update_user-UsersIndexed_example :
    UsersIndexed (update_user "u1" (moves_to "alice@example.org") 7 with_alice).1
unfolding create_user get insert contains_key from_create
update_user-UsersIndexed_example =
    update_user-UsersIndexed "u1" (moves_to "alice@example.org") 7 with_alice
      with_alice-UsersIndexed
      (λ k e. inl (let q : "alice@example.org" ≡ k = ground arith in rw (← q) refl))
      (λ k e. absurd (ground arith))

abbrev bob_taken : MemoryDatabaseAdapter
bob_taken = (update_user "u1" (moves_to "bob@example.com") 7 with_both).1

update_user_steals_example :
    (v : User) × ((update_user "u1" (moves_to "bob@example.com") 7 with_both).0 ≡ ok v)
    × (v.id ≡ "u1")
    × (v.email ≡ some "bob@example.com")
    × (get "u2" bob_taken.users ≡ some bob_user)
    × ((get_user_by_email "bob@example.com" bob_taken).0 ≡ ok (some v))
    × ¬ UsersIndexed bob_taken
unfolding create_user get insert contains_key from_create
update_user_steals_example =
    update_user_steals "u1" "u2" "bob@example.com" alice_user bob_user (moves_to "bob@example.com")
      7 with_both refl refl (λ e. ground (arith, eq_iff "u1" "u2")) refl refl
