-- ===== src/Sban.antt =====
-- Project/libsmoke/libs/sknx/libs/sban: the library of key agreements. What it calls of polarssl is a
-- record of operations; an operation that can fail gives a result or an error code. After an error the
-- callers only free the context, so a failed operation leaves no context.
pub mod Bd2
pub mod Mka
pub mod Bd1
pub mod Util
pub mod Gdh2
pub mod Toy
mod Tests
use lib_smoke.Base.{ℕ, List, Option, none, some, Bool, if◌then◌else◌, ◌≡◌, refl, ◌⊎◌, inl, inr}

-- the codes of include/sban/common.h, and those of polarssl
pub data Code : Type 0 where
  bad_input_data buffer_too_short max_round_number_exceeded round_not_completed : Code
  polarssl_error : ℕ → Code

pub data Ret (A : Type 0) : Type 0 where
  ok : A → Ret A
  fail : Code → Ret A

pub Ret-cases : {A : Type 0} (r : Ret A) → ((a : A) × (r ≡ ok a)) ⊎ ((c : Code) × (r ≡ fail c))
Ret-cases (ok a) = inl (a, refl)
Ret-cases (fail c) = inr (c, refl)

-- `MPI_CHK`
abbrev pub and_then : {A B : Type 0} → Ret A → (A → Ret B) → Ret B
and_then (ok a) f = f a
and_then (fail c) f = fail c

-- `if (call(...)) return bad;`
abbrev pub check : {A R : Type 0} → Ret A → R → (A → R) → R
check (ok a) bad f = f a
check (fail c) bad f = bad

-- a result that is not looked at: what it writes, or what was there
abbrev pub or_old : {A : Type 0} → Ret A → A → A
or_old (ok a) old = a
or_old (fail c) old = old

-- `if (ctx == NULL) return BAD_INPUT_DATA;`
abbrev pub not_null : {A B : Type 0} → Option A → (A → Ret B) → Ret B
not_null none f = fail bad_input_data
not_null (some a) f = f a

-- The operations on one curve, whose parameters are those of `ctx->grp`.
pub record Polarssl (Mpi Point Rng : Type 0) : Type 0 where
  pub use_known_dp : ℕ → Ret (Unit {0})
  pub gen_keypair : Rng → Ret (Mpi × Point × Rng)
  pub mul : Mpi → Point → Rng → Ret (Point × Rng)
  pub add : Point → Point → Ret Point
  pub copy : Point → Ret Point
  pub check_pubkey : Point → Ret (Unit {0})
  pub is_zero : Point → Bool
  pub x_of : Point → Mpi
  pub y_of : Point → Mpi
  pub set_y : Point → Mpi → Point
  pub is_null : Mpi → Bool
  pub sub_from_prime : Mpi → Ret Mpi
  pub mpi_size : Mpi → ℕ
  pub write_binary : Mpi → ℕ → Ret (List ℕ)
  pub write_point : Point → ℕ → Ret (List ℕ)
  pub read_point : List ℕ → Ret Point
  pub pbits : ℕ
  pub zero_mpi : Mpi
  pub zero_point : Point

-- What else the rounds of MKA and BD1 call: `mpi_lset`, `mpi_inv_mod` by the group's order,
-- `ecp_set_zero`, `ecp_tls_read_point` on a buffer whose length is given, with the rest of the buffer,
-- `ecp_sub`, and `mpi_mul_int` and `mpi_mod_mpi` by the group's order.
pub record Arithmetic (Mpi Point : Type 0) : Type 0 where
  pub lset : ℕ → Ret Mpi
  pub inv_mod : Mpi → Ret Mpi
  pub set_zero : Ret Point
  pub read_next : List ℕ → ℕ → Ret (Point × List ℕ)
  pub sub : Point → Point → Ret Point
  pub mul_int : Mpi → ℕ → Ret Mpi
  pub mod_order : Mpi → Ret Mpi

-- `ecp_opp` of src/util.c
unfoldable pub opp : {Mpi Point Rng : Type 0} → Polarssl Mpi Point Rng → Point → Ret Point
opp p q = and_then (p.copy q) λ r.
    if p.is_null (p.y_of r)
    then ok r
    else and_then (p.sub_from_prime (p.y_of r)) λ y. ok (p.set_y r y)
