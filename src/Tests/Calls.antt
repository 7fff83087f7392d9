-- ===== src/Tests/Calls.antt =====
-- The theorems on typed buffers and calls, applied to a thread that allocates a string, calls a service
-- that answers with a UBF buffer, and is collected.
mod Replies
use endurox_java.Base.{
  ℕ, ◌+◌, ◌≡◌, ◌≢◌, refl, ap, Bool, true, false, Bool-cases, inl, inr, Option, Option-cases, none,
  some, List, [], ◌∷◌, ◌==◌, if◌then◌else◌, set_at, set_at_self, set_at_other, arith,
}
use mathlib.Core.Path.{subst}
use endurox_java.Base.Bytes.{CString, codes, str_eq}
use endurox_java.Buffers.{
  TypedBuffer, typed_string, typed_ubf, Code, tpeinval, other_code, World, cleanup, atmi_throw,
  unset_ctx, get_ctx, translate_type, new_object, choose,
}
use endurox_java.Buffers.Owned.{Heap, IsOwner, Owned}
use endurox_java.Buffers.Prepared.{OwnedWorld}
use endurox_java.Calls.{Reply, Service, Answers}
use endurox_java.Calls.Contract.{Answered, IsService, Sole}
use endurox_java.Calls.Alloc.{Allocation, tpalloc}
use endurox_java.Calls.Alloc.Made.{Allocates, tpalloc-Owned}

abbrev pub answers : Answers
answers = record { known = true; memory = true; result_memory = true; failed = other_code 1 }

abbrev closed : ℕ → TypedBuffer
closed i = record { clazz = typed_string; do_finalize = false; c_ptr = 0; len = 0 }

abbrev empty_heap : Heap
empty_heap x = none

abbrev pub first_world : World
first_world = record {
  heap = empty_heap;
  objects = closed;
  next = 0;
  pending = none;
  ctx_set = false;
  undefined = false;
}

pub first_world-Owned : OwnedWorld first_world
first_world-Owned = record {
  null = refl;
  live = λ i own. cc (own.0);
  apart = λ i j ne own. cc (own.0);
}

-- Allocates at one address.
abbrev pub alloc_at : CString → Heap → Allocation
alloc_at btype h = elim (h 100) as (λ x. Allocation) [
  | none ↦ record { address = 100; err = other_code 0; heap = set_at h 100 (some btype) }
  | some t ↦ record { address = 0; err = other_code 12; heap = h }
]

pub alloc_at-Allocates : (t : CString) (h : Heap) → h 0 ≡ none → Allocates t h (alloc_at t h)
alloc_at-Allocates t h null = elim (Option-cases (h 100)) [
  | inl free ↦
      rw (alloc_at, free)
        (record {
          fresh = free;
          kept = λ x ne. set_at_other h 100 x (some t) (λ e. ne (ground arith));
          failed = λ e. ground arith;
          typed = λ ne. (t, set_at_self h 100 (some t), refl);
        })
  | inr (u, used) ↦
      rw (alloc_at, used)
        (record {
          fresh = null;
          kept = λ x ne. refl;
          failed = λ e. null;
          typed = λ ne. absurd (ne refl);
        })
]

abbrev string_object : TypedBuffer
string_object = record { clazz = typed_string; do_finalize = true; c_ptr = 100; len = 10 }

abbrev pub start : World
start = record {
  heap = set_at empty_heap 100 (some (codes "STRING"));
  objects = set_at closed 0 string_object;
  next = 1;
  pending = none;
  ctx_set = false;
  undefined = false;
}

pub start_allocated :
    tpalloc answers alloc_at (some (codes "STRING")) 10 first_world ≡ (some 0, start)
unfolding tpalloc atmi_throw unset_ctx get_ctx translate_type new_object str_eq choose
start_allocated = refl

pub start-Owned : OwnedWorld start
start-Owned =
    subst (λ (w : World). OwnedWorld w) (ap (λ (r : Option ℕ × World). r.1) start_allocated)
      (tpalloc-Owned answers alloc_at (some (codes "STRING")) 10 first_world alloc_at-Allocates
        first_world-Owned)

pub start-Sole : Sole start (some 0)
start-Sole j ne own =
    let e = set_at_other closed 0 j string_object ne in let on = own.0 in cc (e, on)

-- Answers in the same buffer, which has another type then.
abbrev pub answering : Service
answering ibuf ilen h = record {
  success = true;
  err = other_code 0;
  obuf = ibuf;
  olen = ilen + 1;
  cd = 1;
  revent = 0;
  heap = if ibuf == 0 then h else set_at h ibuf (some (codes "UBF"));
}

pub answering-IsService : IsService answering
answering-IsService ibuf ilen h null = elim (Bool-cases (ibuf == 0)) [
  | inl z ↦ rw z (record {
    null = null;
    kept = λ x _ _. refl;
    live = λ ne. absurd (ne (ground arith));
    fresh = λ ne. absurd (ne refl);
    stays = λ e _ _. absurd (cc e);
  })
  | inr nz ↦ rw nz (record {
    null = ground arith;
    kept = λ x ne _. set_at_other h ibuf x _ (λ e. ne (ground arith));
    live = λ ne. (codes "UBF", set_at_self h ibuf (some (codes "UBF")));
    fresh = λ ne. absurd (ne refl);
    stays = λ e _ _. absurd (cc e);
  })
]
