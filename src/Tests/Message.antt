-- ===== src/Tests/Message.antt =====
-- Messages with given contents.
use nng_core.Prelude.{◌+◌, ◌-◌, ◌^◌, ◌≡◌, refl, arith, List, [], ◌∷◌, length, done, panic, map_exec}
use nng_core.Prelude.Slices.{slice}
use nng_core.Message.ZeroCopy
use nng_core.Message.ZeroCopy.{ZeroCopyMessage}
use nng_core.Message.ZeroCopy.Laws.{new-IsValid, trim_front_wraps}
use nng_core.Message.ZeroCopy.Refine.{
  Op, push_back, header_push_back, trim_front, spec_run, step, run, view, run_refines,
}

abbrev ops : List Op
ops = push_back (1 ∷ 2 ∷ 3 ∷ []) ∷ header_push_back (9 ∷ []) ∷ trim_front 2 ∷ []

run_refines_example :
    map_exec view (run (ZeroCopy.new 8) ops) ≡ spec_run 8 (view (ZeroCopy.new 8)) ops
run_refines_example =
    run_refines ops (ZeroCopy.new 8) (new-IsValid 8 (omega arith)) (tt, (tt, (omega arith, tt)))

trim_front_wraps_example :
    (m' : ZeroCopyMessage 8) × (ZeroCopy.trim_front (ZeroCopy.new 8) (2 ^ 64 - 1) ≡ done m')
    × (ZeroCopy.body m' ≡ slice (ZeroCopy.new 8).buf (2 - 1) 2)
    × (length (ZeroCopy.body m') ≡ length (ZeroCopy.body (ZeroCopy.new 8)) + 1)
unfolding ZeroCopy.new
trim_front_wraps_example =
    trim_front_wraps (ZeroCopy.new 8) (new-IsValid 8 (omega arith)) 1 (omega arith) (omega arith)

-- The header of eight bytes has room for two.
header_full : run (ZeroCopy.new 8) (header_push_back (1 ∷ 2 ∷ 3 ∷ []) ∷ []) ≡ panic
unfolding run step ZeroCopy.header_push_back ZeroCopy.new
header_full = refl
