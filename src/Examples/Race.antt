-- ===== src/Examples/Race.antt =====
-- Two registrations that overlap: both pass the check before either takes an index.
use quickjs_runtime.Prelude.{ℕ, ◌+◌, ◌≢◌, refl, none, arith, ℕ_discrete}
use quickjs_runtime.Bridge.Table.{Table, store}
use quickjs_runtime.Bridge.Race.{
  entered, checked, claimed, stored, see_room, add_within, fill, update, System, pick, Reach, here,
  later, initial,
}
use quickjs_runtime.Bridge.Race.Reachable.{IsReachedBy, stored-callback_at}

-- Call `j` registers `10 + j`.
abbrev wanted : ℕ → ℕ
wanted j = 10 + j

abbrev overlapped : System ℕ
overlapped = record {
  table = record { count = 2; slots = store (store (λ _. none) 0 11) 1 10 };
  call =
      update
        (update
          (update
            (update (update (update (λ j. entered (wanted j)) 0 (checked 10)) 1 (checked 11)) 1
              (claimed 11 0))
            0 (claimed 10 1))
          1 (stored 11 0))
        0 (stored 10 1);
}

overlapped-Reach : Reach (initial wanted) overlapped
unfolding ℕ_discrete
overlapped-Reach =
    later
      (later
        (later
          (later
            (later (later here (pick 0 (see_room (omega arith)))) (pick 1 (see_room (omega arith))))
            (pick 1 (add_within (omega arith))))
          (pick 0 (add_within (omega arith))))
        (pick 1 fill))
      (pick 0 fill)

stored-callback_at_example :
    (◌≢◌ {A = ℕ} 1 0) × IsReachedBy overlapped.table 10 1 × IsReachedBy overlapped.table 11 0
unfolding ℕ_discrete
stored-callback_at_example =
    stored-callback_at wanted overlapped 0 1 10 11 1 0 overlapped-Reach refl refl (omega arith)

abbrev start_table : Table ℕ
start_table = record { count = 4; slots = λ _. none }
