-- ===== src/Xa/Xid.antt =====
-- libsrc/c/util.c, `ndrxj_cvt_xid_to_java` and `ndrxj_cvt_xid_to_c`, and the class ExXid of
-- libsrc/java/org/endurox/ExXid.java between them.
pub mod RoundTrip
use endurox_java.Base.{
  ℕ, ◌+◌, ◌-◌, ◌*◌, ◌%◌, ◌^◌, Bool, true, false, ◌&&◌, Option, none, some, List, [], ◌++◌, leb,
  if◌then◌else◌, length, take, drop, replicate,
}

-- XIDDATASIZE
abbrev pub data_size : ℕ
data_size = 128

-- `struct xid_t`; the format id is the bit pattern of the C long, the lengths are not negative.
pub record CXid : Type 0 where
  pub format_id : ℕ
  pub gtrid_length : ℕ
  pub bqual_length : ℕ
  pub bytes : List ℕ

-- What javax.transaction.xa.Xid gives of an ExXid.
pub record ExXid : Type 0 where
  pub format_id : ℕ
  pub trxid : List ℕ
  pub bqual : List ℕ

-- The constructor of ExXid; System.arraycopy throws when it would read outside the array.
unfoldable pub ex_xid : (format_id gtrid_length bqual_length : ℕ) → List ℕ → Option ExXid
ex_xid format_id gtrid_length bqual_length bytes =
    if leb (gtrid_length + bqual_length) (length bytes)
    then some (record {
      format_id = format_id;
      trxid = take gtrid_length bytes;
      bqual = take bqual_length (drop gtrid_length bytes);
    })
    else none

-- `ndrxj_cvt_xid_to_java`; `memory` says whether NewByteArray succeeds.
unfoldable pub cvt_xid_to_java : (memory : Bool) → CXid → Option ExXid
cvt_xid_to_java memory xid =
    if memory then ex_xid xid.format_id xid.gtrid_length xid.bqual_length xid.bytes else none

-- `getFormatId` cuts the id to an int, and CallLongMethod reads a long: the upper half is whatever
-- the JVM left there.
unfoldable pub read_format_id : (upper : ℕ) → ℕ → ℕ
read_format_id upper format_id = upper * 2 ^ 32 + format_id % 2 ^ 32

-- `ndrxj_cvt_xid_to_c`; none when the copies would write past `data`.
unfoldable pub cvt_xid_to_c : (upper : ℕ) → ExXid → Option CXid
unfolding read_format_id
cvt_xid_to_c upper x =
    if leb (length x.trxid + length x.bqual) data_size
    then some (record {
      format_id = read_format_id upper x.format_id;
      gtrid_length = length x.trxid;
      bqual_length = length x.bqual;
      bytes = x.trxid ++ x.bqual ++ replicate (data_size - (length x.trxid + length x.bqual)) 0;
    })
    else none
