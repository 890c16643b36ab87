-- ===== src/Telegram/Checksum.antt =====
-- What `telegram::check` catches.
use lib_smoke.Base.{
  ℕ, suc, ◌≤◌, ◌<◌, ◌≡◌, ◌≢◌, arith, true, false, length, take, set, nth, nth-take, IsBytes,
  All-take, length-take, take-set, get_or-set_lt,
}
use lib_smoke.Telegram.Xor.{xor_bytes, xor_bytes-append, xor_bytes-lt, xor_bytes-set}
use lib_smoke.Telegram.{Telegram, check}
use lib_smoke.Telegram.Wire.{IsWf, header, checksum-eq}

header-IsBytes : {t : Telegram} → IsWf t → IsBytes (header t)
header-IsBytes w = omega arith

-- If a well-formed telegram with bytes in its body passes the check, then the telegram with one
-- payload byte changed to another byte does not.
pub check-set :
    (t : Telegram) (i v : ℕ)
    → IsWf t
    → IsBytes t.body
    → check t ≡ true
    → i < t.hdr_size
    → v < 256
    → v ≢ nth t.body i
    → check (record t { body = set t.body i v }) ≡ false
unfolding check
check-set t i v w bs ok hi hv ne =
    let t' : Telegram = record t { body = set t.body i v } in
    let sum : ℕ = xor_bytes 0 (header t) in
    let hs : sum < 256 = xor_bytes-lt 0 (header t) (omega arith) in
    let len : i < length (take t.hdr_size t.body) =
      omega (arith, length-take t.hdr_size t.body, w.body_size, w.size_bits) in
    let ne' : v ≢ nth (take t.hdr_size t.body) i = ground (arith, nth-take t.hdr_size t.body i) in
    let bs' : IsBytes (take t.hdr_size t.body) = All-take (λ b. suc b ≤ 256) t.hdr_size t.body bs in
    ground (
      arith,
      checksum-eq t,
      checksum-eq t',
      xor_bytes-append 0 (header t) (take t.hdr_size t.body),
      xor_bytes-append 0 (header t) (take t.hdr_size (set t.body i v)),
      take-set t.hdr_size t.body i v,
      get_or-set_lt t.body i t.hdr_size v 0,
      xor_bytes-lt sum (take t.hdr_size t.body) hs,
      xor_bytes-lt sum (set (take t.hdr_size t.body) i v) hs,
      xor_bytes-set sum (take t.hdr_size t.body) i v hs bs' hv len ne',
    )
