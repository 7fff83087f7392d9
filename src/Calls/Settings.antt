-- ===== src/Calls/Settings.antt =====
-- libsrc/c/AtmiCtx_Util.c: the time-out of a context, the list of its buffers and the return code; and
-- of libsrc/c/AtmiCtx.c the data of a service's context, `tpterm` and `tpcontinue`.
use endurox_java.Base.{
  ◌==◌, map, if◌then◌else◌, ◌∷◌, ℕ, Bool, false, true, Option, none, some, List, [],
}
use endurox_java.Buffers.{World, Code, get_ctx, unset_ctx, atmi_throw}
use endurox_java.Ubf.{at, Jint, exfail}

-- A value of the library that is read in a context, or else the one that the code starts with.
unfoldable pub read_setting : {R : Type 0} → (known : Bool) → (start value : R) → World → R × World
read_setting known start value w =
    let (got, w1) = get_ctx known true w in (if got then value else start, unset_ctx w1)

-- `tptoutget` and `tpurcode`, which start with -1 and 0.
unfoldable pub tptoutget : (known : Bool) → (tout : Jint) → World → Jint × World
tptoutget known tout = read_setting known exfail tout

unfoldable pub tpurcode : (known : Bool) → (code : ℕ) → World → ℕ × World
tpurcode known code = read_setting known 0 code

-- `tptoutset`; a failure has its tperrno.
unfoldable pub tptoutset : (known : Bool) → Option Code → World → World
tptoutset known none w = unset_ctx (get_ctx known true w).1
tptoutset known (some err) w =
    let (got, w1) = get_ctx known true w in
    let thrown = atmi_throw none false err w1 in unset_ctx (if got then thrown else w1)

-- `tpcancel`, whose result is not read.
unfoldable pub tpcancel : (known : Bool) → World → World
tpcancel known w = unset_ctx (get_ctx known true w).1

-- The answers to `getBuffers`: whether the list is filled, its addresses, whether the array of Java is
-- made and whether malloc gives the block. `system` is TPESYSTEM.
pub record ListAnswers : Type 0 where
  pub listed : Bool
  pub buffers : List ℕ
  pub made : Bool
  pub memory : Bool

-- The copy into the array of Java; an empty list needs no block. Without one the array is returned as
-- it was made, of zeros.
unfoldable pub copy_list : (memory : Bool) → (system : Code) → List ℕ → World → List ℕ × World
copy_list memory system [] w = ([], w)
copy_list memory system (p ∷ ps) w =
    if memory then (p ∷ ps, w) else (map (λ q. 0) (p ∷ ps), atmi_throw none false system w)

-- The array, between the context and `out:`.
unfoldable pub list_buffers : ListAnswers → (system : Code) → World → Option (List ℕ) × World
list_buffers a system w =
    let (ps, w1) = copy_list a.memory system a.buffers w in
    if a.listed
    then if a.made then (some ps, w1) else (none, atmi_throw none false system w)
    else (none, atmi_throw none false system w)

-- `getBuffers`
unfoldable pub get_buffers :
    (known : Bool) → ListAnswers → (system : Code) → World → Option (List ℕ) × World
get_buffers known a system w =
    let (got, w1) = get_ctx known true w in
    let (ps, w2) = list_buffers a system w1 in
    if got then (ps, unset_ctx w2) else (none, unset_ctx w1)

-- A call without a result, up to the switch back; `tpterm`, `tpcontinue` and `tpsrvfreectxdata` return in front of the switch back when there is
-- no context.
unfoldable pub plain_call : (known : Bool) → World → World
plain_call known w = let (got, w1) = get_ctx known true w in if got then unset_ctx w1 else w1

unfoldable pub tpterm : (known : Bool) → World → World
tpterm known w = plain_call known w

unfoldable pub tpcontinue : (known : Bool) → World → World
tpcontinue known w = plain_call known w

unfoldable pub tpsrvfreectxdata : (known : Bool) → World → World
tpsrvfreectxdata known w = plain_call known w

-- `tpsrvsetctxdata`; a failure has its tperrno.
unfoldable pub tpsrvsetctxdata : (known : Bool) → Option Code → World → World
tpsrvsetctxdata known none w = plain_call known w
tpsrvsetctxdata known (some err) w =
    let (got, w1) = get_ctx known true w in
    let thrown = atmi_throw none false err w1 in if got then unset_ctx thrown else w1

-- `tpsrvgetctxdata`: the address that the library gives, or NULL and its tperrno.
unfoldable pub tpsrvgetctxdata :
    (known : Bool) → (address : ℕ) → (err : Code) → World → Jint × World
tpsrvgetctxdata known address err w =
    let (got, w1) = get_ctx known true w in
    let w2 = if address == 0 then atmi_throw none false err w1 else w1 in
    if got then (at address, unset_ctx w2) else (exfail, w1)
