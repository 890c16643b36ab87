-- ===== src/Backend/LinuxTpuart/Init.antt =====
-- `init` of the TP-UART backend: the chip is reset, given the node's address and asked for its status.
use lib_smoke.Base.{
  ℕ, zero, suc, ◌+◌, ◌*◌, ◌/◌, ◌%◌, ◌≡◌, refl, ap, arith, List, [], ◌∷◌, ◌++◌, Option, none, some,
  Bool, true, false, not, ◌||◌, ◌==◌, if◌then◌else◌, inl, inr, Bool-cases,
}
use lib_smoke.Telegram.Endian.{to_big_endian_16}
use lib_smoke.Backend.{Recv, recv_failed, recv_bytes, Effect, closes, sends}
use lib_smoke.Backend.LinuxTpuart.{LinuxTpuart}

-- whether a `read` of one byte gives `b`
abbrev pub is_byte : ℕ → Recv → Bool
is_byte b recv_failed = false
is_byte b (recv_bytes []) = false
is_byte b (recv_bytes (c ∷ [])) = c == b
is_byte b (recv_bytes (c ∷ d ∷ bs)) = false

-- The inner loop of `_reset`, for `n` tries, and how many reads were made; `reads` is what each read
-- of a byte returns.
unfoldable pub await_reset : ℕ → (ℕ → Recv) → ℕ → Bool × ℕ
await_reset zero reads k = (false, k)
await_reset (suc n) reads k =
    let rest = await_reset n reads (suc k) in if is_byte 0x03 (reads k) then (true, suc k) else rest

-- the outer loop, for `n` tries: the result, the reads made, and the writes
unfoldable pub reset : Option ℕ → ℕ → (ℕ → Recv) → ℕ → Bool × ℕ × List Effect
reset fd zero reads k = (false, k, [])
reset fd (suc n) reads k =
    let (done, k') = await_reset 5 reads k in
    let (done', k'', log) = reset fd n reads k' in
    let asked = sends fd (0x01 ∷ []) in
    if done then (true, k', asked ∷ []) else (done', k'', asked ∷ log)

-- `_set_address`
abbrev pub set_address : Option ℕ → ℕ → Effect
set_address fd addr = let a = to_big_endian_16 addr in sends fd (0x28 ∷ (a % 256) ∷ (a / 256) ∷ [])

-- The loop of `_check_status`; `none` if it has not ended after `fuel` reads.
unfoldable pub check_status : ℕ → (ℕ → Recv) → ℕ → Option Bool
check_status zero reads k = none
check_status (suc fuel) reads k =
    let again = check_status fuel reads (suc k) in
    elim (reads k) [
      | recv_failed ↦ some false
      | recv_bytes bytes ↦ elim bytes [
        | [] ↦ some false
        | b ∷ more ↦ elim more [
          | [] ↦ if (b == 0x03) || (b == 0x00) then again else some (b == 0x07)
          | c ∷ rest ↦ some false
        ]
      ]
    ]

-- what is left of `init` once the status is known
abbrev pub init_checked : Option Bool → Option ℕ → LinuxTpuart → Option (Bool × LinuxTpuart)
init_checked none fd s = none
init_checked (some false) fd s = some (false, record s { log = s.log ++ (closes fd ∷ []) })
init_checked (some true) fd s = some (true, record s { ready = true })

-- `opened` is what `open` returns, `speed_set` whether `cfsetspeed` succeeds.
unfoldable pub init :
    ℕ → ℕ → Option ℕ → Bool → (ℕ → Recv) → LinuxTpuart → Option (Bool × LinuxTpuart)
unfolding check_status
init fuel id none speed_set reads s =
    if s.ready then some (false, s) else some (false, record s { fd = none })
init fuel id (some fd) speed_set reads s =
    let opened = record s { fd = some fd } in
    let (done, k, log) = reset (some fd) 5 reads 0 in
    let asked = record opened {
      log = s.log ++ (log ++ (set_address (some fd) id ∷ sends (some fd) (0x02 ∷ []) ∷ []));
    } in
    if s.ready
    then some (false, s)
    else if not speed_set
    then some (false, record opened { log = s.log ++ (closes (some fd) ∷ []) })
    else if not done
    then some (false, record opened { log = s.log ++ log })
    else init_checked (check_status fuel reads k) (some fd) asked

-- the chip's answer to a reset, the byte 0x03
abbrev pub is_answer : Recv → Bool
is_answer recv_failed = false
is_answer (recv_bytes []) = false
is_answer (recv_bytes (b ∷ [])) = b == 0x03
is_answer (recv_bytes (b ∷ c ∷ bs)) = false

is_byte-answer : (r : Recv) → is_byte 0x03 r ≡ is_answer r
is_byte-answer recv_failed = refl
is_byte-answer (recv_bytes []) = refl
is_byte-answer (recv_bytes (b ∷ [])) = refl
is_byte-answer (recv_bytes (b ∷ c ∷ bs)) = refl

-- whether one of `n` reads from the `k`-th on gives the chip's answer to a reset
abbrev pub answers : ℕ → (ℕ → Recv) → ℕ → Bool
answers zero reads k = false
answers (suc n) reads k = is_answer (reads k) || answers n reads (suc k)

answers-add :
    (m n : ℕ) (reads : ℕ → Recv) (k : ℕ)
    → answers (m + n) reads k ≡ (answers m reads k || answers n reads (k + m))
answers-add zero n reads k = ground arith
answers-add (suc m) n reads k =
    let e : suc m + n ≡ suc (m + n) = omega arith in
    let e' : suc k + m ≡ k + suc m = omega arith in
    rw e (ground (arith, answers-add m n reads (suc k), ap (answers n reads) e'))

await_reset-answers :
    (n : ℕ) (reads : ℕ → Recv) (k : ℕ)
    → ((await_reset n reads k).0 ≡ answers n reads k)
      × (answers n reads k ≡ false → (await_reset n reads k).1 ≡ k + n)
unfolding await_reset
await_reset-answers zero reads k = (refl, λ h. omega arith)
await_reset-answers (suc n) reads k =
    ground (arith, is_byte-answer (reads k), await_reset-answers n reads (suc k))

-- `_reset` with `n` tries succeeds exactly if one of the next 5 n reads gives 0x03.
pub reset-answers :
    (fd : Option ℕ) (n : ℕ) (reads : ℕ → Recv) (k : ℕ)
    → (reset fd n reads k).0 ≡ answers (5 * n) reads k
unfolding reset
reset-answers fd zero reads k = refl
reset-answers fd (suc n) reads k =
    let a = await_reset-answers 5 reads k in
    let ih = reset-answers fd n reads (await_reset 5 reads k).1 in
    let e : 5 * suc n ≡ 5 + 5 * n = omega arith in
    rw (e, answers-add 5 (5 * n) reads k)
      elim (Bool-cases (answers 5 reads k)) [
        | inl y ↦ ground (arith, a.0, y)
        | inr m ↦ ground (arith, a.0, m, ih, ap (answers (5 * n) reads) (a.1 m))
      ]
