-- ===== src/Tests/Xa.antt =====
-- The theorems on the XA switch, applied to a thread with and without a Java context.
use endurox_java.Base.{
  ◌-◌, take, Option, length, ap, length-append, ◌+◌, ◌%◌, ◌^◌, ◌≡◌, refl, Bool, true, false, some,
  none, List, [], ◌∷◌, ◌++◌, map, replicate, arith,
}
use endurox_java.Base.Bytes.{CString, codes, str_eq, strcmp}
use endurox_java.Linker.Settings.{BufferLib}
use endurox_java.Tests.Codegen.{minus_one}
use endurox_java.Xa.Config.{Json, str, obj, no_more, member, Config, get_value, cfgparse}
use endurox_java.Xa.Config.Settings.{cfgparse_counts}
use endurox_java.Boot.Index.{pos}
use endurox_java.Boot.Jni.{Jni}
use endurox_java.Xa.Xid.{ex_xid, CXid, ExXid, cvt_xid_to_java, cvt_xid_to_c}
use endurox_java.Xa.Xid.RoundTrip.{cvt_xid_round_trip}
use endurox_java.Xa.Entry.{
  xa_ok, xaer_rmerr, Thread, Alloc, alloc_context, with_context, settle, Reply, xa_info_entry,
  xa_recover_entry, op_commit, xa_switch,
}
use endurox_java.Xa.Entry.Codes.{xa_switch_lem}
use endurox_java.Xa.Entry.Recover.{xa_recover_entry_lem}

abbrev xid : CXid
xid = record {
  format_id = 1;
  gtrid_length = 2;
  bqual_length = 1;
  bytes = 7 ∷ 8 ∷ 9 ∷ replicate 125 5;
}

cvt_xid_round_trip_example :
    (x : ExXid) × (back : CXid) × (cvt_xid_to_java true xid ≡ some x)
    × (cvt_xid_to_c 0 x ≡ some back)
    × (back.gtrid_length ≡ 2)
    × (back.bqual_length ≡ 1)
    × (back.bytes ≡ (7 ∷ 8 ∷ 9 ∷ []) ++ replicate 125 0)
    × (back.format_id % 2 ^ 32 ≡ 1 % 2 ^ 32)
cvt_xid_round_trip_example = cvt_xid_round_trip 0 xid refl (omega arith)

abbrev jni : Jni
jni = record { gives = λ r. true; has = λ m. true; throws = λ m. false }

abbrev alloc : (attached : Bool) → Alloc
alloc attached = record { attached = attached; jni = jni; throws = false; given = true }

abbrev thread : (known : Bool) → Thread
thread known = record {
  has_atmi_ctx = known;
  has_env = known;
  saved = some 4;
  current = some 4;
  pending = false;
  jvm = record { live = []; undefined = false; mains = 0 };
  is_server = false;
  leaked = 0;
}

abbrev thrown : Reply
thrown = record { code = xa_ok; throws = true; left_set = some 9 }

abbrev fine : Reply
fine = record { code = xa_ok; throws = false; left_set = some 9 }

-- A thread that cannot be attached reads the JNI environment, which is NULL.
not_attached : xa_info_entry (alloc false) fine (thread false) ≡ none
unfolding xa_info_entry with_context alloc_context settle
not_attached = refl

abbrev java_id : ExXid
java_id = record { format_id = 1; trxid = 7 ∷ []; bqual = 8 ∷ [] }

xa_recover_entry_lem_example :
    (cs : List CXid) × (t' : Thread) × (xa_recover_entry
        (alloc true)
        0
        fine
        (some (record { ret = xa_ok; list = some (java_id ∷ java_id ∷ []) }))
        true
        1
        (thread true)
      ≡ some (pos 1, cs, t'))
    × (map some cs ≡ map (cvt_xid_to_c 0) (java_id ∷ []))
    × (t'.current ≡ some 4)
    × (t'.leaked ≡ 0 + 1 + 1)
xa_recover_entry_lem_example =
    xa_recover_entry_lem (alloc true) 0 fine (java_id ∷ java_id ∷ []) 1 (thread true) refl refl refl
      (omega arith, (omega arith, tt))

xa_switch_lem_example :
    xa_switch (alloc true) true (λ o x. thrown) op_commit xid (thread true)
    ≡ some (xaer_rmerr, thread true)
unfolding cvt_xid_to_java ex_xid
xa_switch_lem_example =
    xa_switch_lem (alloc true) true (λ o x. thrown) op_commit xid (thread true) refl refl refl refl

abbrev buffers : BufferLib
buffers = record {
  strcpy_safe = λ n s. take (n - 1) s;
  strcat_s = λ n a b. take (n - 1) (a ++ b);
  strcpy_safe_fits = λ n s. ap (λ m. take m s) (minus_one n);
  strcat_s_fits = λ n a b h. ap (λ m. take m (a ++ b)) (minus_one n);
}

abbrev list_add : List CString → CString → Option (List CString)
list_add l s = some (l ++ s ∷ [])

list_add-length :
    (l : List CString) (s : CString) (l' : List CString)
    → list_add l s ≡ some l'
    → length l' ≡ length l + 1
list_add-length l s l' e =
    let same : l ++ s ∷ [] ≡ l' = cc in rw (← same) (length-append l (s ∷ []))

abbrev open_string : Json
open_string = obj (
    member (codes "class") (str (codes "org.X"))
      (member (codes "set") (obj (member (codes "SetPort") (str (codes "77")) no_more)) no_more))

cfgparse_counts_example :
    (ok : Bool) × (c' : Config) × (cfgparse buffers list_add 4096 open_string
        (record { sets = []; nrsets = 0; clazz = [] })
      ≡ some (ok, c'))
    × (c'.nrsets + 0 ≡ 0 + length c'.sets)
unfolding get_value str_eq strcmp
cfgparse_counts_example =
    cfgparse_counts buffers list_add 4096 list_add-length open_string
      (record { sets = []; nrsets = 0; clazz = [] }) (refl, tt, (refl, (refl, tt, tt), tt))
