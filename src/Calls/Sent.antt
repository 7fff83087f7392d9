-- ===== src/Calls/Sent.antt =====
-- The methods that hand a buffer to the library and get none back.
use endurox_java.Base.{
  ◌&&◌, ◌||◌, Option-cases, ℕ, ◌≡◌, refl, ◌∙◌, Bool, true, false, not, inl, inr, Option, none, some,
  [], either, set_at_same,
}
use endurox_java.Base.Bytes.{CString, codes}
use endurox_java.Buffers.{World, Code, get_ctx, unset_ctx, atmi_throw, get_buffer}
use endurox_java.Buffers.Owned.{Heap}
use endurox_java.Calls.{
  Service, Answers, Input, read_buffer, read_input, tpacall, tpsend, tpdiscon, is_event, after,
}
use endurox_java.Calls.Queue.{QueueCall, tpenqueue, complete, names_ok, leave}

-- The library leaves the buffers as they are, its caller's among them.
abbrev pub Untouched : Service → Type 0
Untouched s = (buf len : ℕ) (h : Heap) → (s buf len h).heap ≡ h

-- No object has changed, and nothing is allocated or freed.
abbrev pub Same : World → World → Type 0
Same w v = (v.heap ≡ w.heap) × (v.objects ≡ w.objects)

module _ (a : Answers) where
  get_ctx-Same : (known : Bool) (w : World) → Same w (get_ctx known true w).1
  unfolding get_ctx atmi_throw
  get_ctx-Same true w = (refl, refl)
  get_ctx-Same false w = (refl, refl)

  read_buffer-Same :
      (itype : CString) (object : Option ℕ) (w : World)
      → Same w (read_buffer a false itype object w).1
  unfolding read_buffer get_buffer
  read_buffer-Same itype none w = (refl, refl)
  read_buffer-Same itype (some i) w = elim (Option-cases w.pending) [
    | inr (e, p) ↦ rw p (refl, set_at_same w.objects i)
    | inl quiet ↦ rw quiet (refl, set_at_same w.objects i)
  ]

  read_input-Same :
      (itype : CString) (object : Option ℕ) (w : World)
      → Same w (read_input a false itype object w).1
  unfolding read_input
  read_input-Same itype object w =
      let (h, o) = get_ctx-Same a.known w in
      let (h', o') = read_buffer-Same itype object (get_ctx a.known true w).1 in
      either {A = Input × World} (λ r. Same w r.1) (get_ctx a.known true w).0 (h' ∙ h, o' ∙ o)
        (h, o)

  pub tpacall-Same :
      (s : Service) (object : Option ℕ) (w : World) → Untouched s → Same w (tpacall a s object w).1
  unfolding tpacall unset_ctx atmi_throw
  tpacall-Same s object w law =
      let (input, w1) = read_input a false [] object w in
      let (h, o) = read_input-Same [] object w in
      let r = s input.ibuf input.ilen w1.heap in
      let h' = law input.ibuf input.ilen w1.heap ∙ h in
      either {A = Option ℕ × World} (λ r. Same w r.1) (not input.ok) (h, o)
        (either {A = Option ℕ × World} (λ r. Same w r.1) r.success (h', o) (h', o))

  pub tpsend-Same :
      (s : Service) (object : Option ℕ) (w : World) → Untouched s → Same w (tpsend a s object w).1
  unfolding tpsend unset_ctx atmi_throw
  tpsend-Same s object w law =
      let (input, w1) = read_input a false [] object w in
      let (h, o) = read_input-Same [] object w in
      let r = s input.ibuf input.ilen w1.heap in
      let h' = law input.ibuf input.ilen w1.heap ∙ h in
      either {A = ℕ × World} (λ r. Same w r.1) (not input.ok) (h, o)
        (either {A = ℕ × World} (λ r. Same w r.1) (not r.success && not (is_event r.err)) (h', o)
          (h', o))

  pub tpdiscon-Same : (success : Bool) (err : Code) (w : World) → Same w (tpdiscon a success err w)
  unfolding tpdiscon unset_ctx atmi_throw
  tpdiscon-Same success err w =
      let (h, o) = get_ctx-Same a.known w in
      let w1 = (get_ctx a.known true w).1 in
      either {A = World} (λ v. Same w (unset_ctx v)) (not (get_ctx a.known true w).0 || success)
        (h, o) (h, o)

  pub tpenqueue-Same :
      (q : QueueCall) (s : Service) (object : Option ℕ) (w : World)
      → Untouched s
      → Same w (tpenqueue a q s object w)
  unfolding tpenqueue unset_ctx atmi_throw leave
  tpenqueue-Same q s object w law =
      let (got, w1) = get_ctx a.known true w in
      let (h, o) = get_ctx-Same a.known w in
      let (input, w2) = read_buffer a false (codes "NULL") object w1 in
      let (h', o') = read_buffer-Same (codes "NULL") object w1 in
      let r = s input.ibuf input.ilen w2.heap in
      let sent : Same w (after a r w2) = (law input.ibuf input.ilen w2.heap ∙ h' ∙ h, o' ∙ o) in
      let P : World → Type 0 = Same w in
      either P (not got) (h, o)
        (either P (not (complete q)) (h, o)
          (either P (not (names_ok q)) (h, o)
            (either P (not input.ok) (h' ∙ h, o' ∙ o)
              (either P (not q.qctl_ok) (h' ∙ h, o' ∙ o)
                (either P q.back_ok (either P r.success sent sent)
                  (either P r.success sent sent))))))
