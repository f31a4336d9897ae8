-- ===== src/Kv/Tests.antt =====
-- internal/kv at concrete inputs: a clock that goes one second in each statement, and a driver that
-- refuses the statement of number 4.
use denkeeper.Prelude.{◌*◌, ◌≡◌, ◌≢◌, refl, true, not, none, List, [], ◌∷◌, arith, nat_beq}
use denkeeper.Kv.{byte_length, count_rows}
use denkeeper.Kv.Locks.{set_nx_twice}
use denkeeper.Kv.Quota.{Bounded, run_all-Bounded}
use denkeeper.Kv.Store.{
  Env, Limits, Db, done, set, set_nx, Command, sets, sets_nx, deletes, cleans, run_all,
}
use denkeeper.Kv.Values.{value_at, copies, Wrote, set-Wrote}

abbrev clocked : Env
clocked = record { works = λ t. not (nat_beq t 4); clock = λ t. t * 1000000000 }

abbrev two : Limits
two = record { max_keys = 2; max_value_bytes = 8 }

abbrev empty : Db
empty = record { rows = []; moment = 0 }

abbrev calls : List Command
calls =
    sets "a" "x" "1" 0
    ∷ sets_nx "a" "y" "2" 5000000000
    ∷ sets "a" "z" "3" 0
    ∷ deletes "a" "x"
    ∷ sets "a" "z" "3" 0
    ∷ cleans
    ∷ []

-- The SetNX is lost to the driver, and the first key is deleted.
count_test : count_rows "a" (run_all clocked two calls empty).rows ≡ 1
unfolding run_all count_rows
count_test = refl

bytes_test : byte_length "aé€" ≡ 6
unfolding byte_length
bytes_test = refl

run_all-Bounded_example : Bounded 2 (run_all clocked two calls empty).rows
unfolding count_rows
run_all-Bounded_example = run_all-Bounded clocked two refl calls empty (λ agent. omega arith)

abbrev one : Db
one = run_all clocked two (sets "a" "x" "1" 3000000000 ∷ []) empty

set-Wrote_example :
    Wrote clocked "a" "x" "2" 4000000000 one (set clocked two "a" "x" "2" 4000000000 one)
unfolding copies run_all
set-Wrote_example = set-Wrote clocked "a" "x" "2" 4000000000 two one (omega arith)

-- The key is gone in the second in which its lifetime ends.
expiry_test : value_at "a" "x" 5 one.rows ≡ none
unfolding value_at run_all
expiry_test = refl

set_nx_twice_example :
    (set_nx clocked two "a" "x" "me" 1000000000 (set_nx clocked two "a" "x" "you" 0 empty).1).0
    ≢ done true
unfolding set_nx
set_nx_twice_example = set_nx_twice clocked clocked two two "a" "x" "you" "me" 1000000000 empty refl
