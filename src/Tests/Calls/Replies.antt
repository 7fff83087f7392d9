-- ===== src/Tests/Calls/Replies.antt =====
-- Witnesses for the calls of the string object.
use endurox_java.Base.{ℕ, ◌≡◌, refl, true, false, Option, some, [], ◌∷◌, ap, set_at}
use mathlib.Core.Path.{subst}
use endurox_java.Base.Bytes.{codes, str_eq}
use endurox_java.Buffers.{
  typed_ubf, World, unset_ctx, get_ctx, translate_type, new_object, choose, get_buffer, result_prep,
  replace_object,
}
use endurox_java.Buffers.Freed.{AllFreed, cleanups}
use endurox_java.Buffers.Prepared.{OwnedWorld}
use endurox_java.Calls.{tpcall, read_input, read_buffer}
use endurox_java.Calls.Kept.{tpcall-Owned}
use endurox_java.Calls.Alloc.{tpalloc}
use endurox_java.Calls.Context.{tpcall_of, behind, behind-ctx_set}
use endurox_java.Calls.History.{Run, begin, then_step, allocated, called, run-cleanups}
use endurox_java.Calls.Result.{tpcall-Carries}
use endurox_java.Tests.Calls.{
  answers, first_world, first_world-Owned, alloc_at, alloc_at-Allocates, start, start_allocated,
  start-Owned, start-Sole, answering, answering-IsService,
}

-- The answer has another type: a new object takes the buffer.
abbrev answered : World
answered = (tpcall answers answering (some 0) start).1

called_types : (tpcall answers answering (some 0) start).0 ≡ some 1
unfolding tpcall read_input read_buffer get_ctx get_buffer unset_ctx result_prep replace_object
    translate_type new_object choose str_eq
called_types = refl

new_owner :
    (answered.objects 1 ≡ record { clazz = typed_ubf; do_finalize = true; c_ptr = 100; len = 11 })
    × ((answered.objects 0).do_finalize ≡ false)
    × ((answered.objects 0).c_ptr ≡ 100)
unfolding tpcall read_input read_buffer get_ctx get_buffer unset_ctx result_prep replace_object
    translate_type new_object choose str_eq
new_owner = (refl, refl, refl)

tpcall-Owned_example : OwnedWorld answered
tpcall-Owned_example =
    tpcall-Owned answers answering (some 0) start answering-IsService (λ ibuf ilen h. refl)
      start-Owned start-Sole

tpcall-Carries_example :
    (true ≡ true) × ((answered.objects 1).c_ptr ≡ 100) × ((answered.objects 1).len ≡ 11)
tpcall-Carries_example = tpcall-Carries answers answering (some 0) start 1 called_types

behind-ctx_set_example : (behind answers (tpcall_of answering (some 0)) start).ctx_set ≡ false
behind-ctx_set_example = behind-ctx_set answers (tpcall_of answering (some 0)) start

-- Allocated and called, the thread leaves two objects with one buffer, of which one frees it.
abbrev history : Run first_world answered
history =
    then_step start answered
      (subst (λ (w : World). Run first_world w) (ap (λ (r : Option ℕ × World). r.1) start_allocated)
        (then_step first_world (tpalloc answers alloc_at (some (codes "STRING")) 10 first_world).1
          begin (allocated answers alloc_at (some (codes "STRING")) 10 alloc_at-Allocates)))
      (called answers answering (some 0) answering-IsService (λ ibuf ilen h. refl) start-Sole)

run-cleanups_example :
    OwnedWorld answered
    × ((cleanups (0 ∷ 1 ∷ []) answered).undefined ≡ answered.undefined)
    × AllFreed answered.objects (cleanups (0 ∷ 1 ∷ []) answered).heap (0 ∷ 1 ∷ [])
run-cleanups_example = run-cleanups first_world answered (0 ∷ 1 ∷ []) first_world-Owned history

abbrev retyped : World
retyped = record start { heap = set_at start.heap 100 (some (codes "UBF")) }

types_differ : str_eq (codes "UBF") (codes "STRING") ≡ false
unfolding str_eq
types_differ = refl
