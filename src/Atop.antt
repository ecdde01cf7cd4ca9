-- ===== src/Atop.antt =====
-- What the program takes from atop (a submodule) and from the system: sizes, flags and constants
-- are parameters, and the structs are records of the fields that the program reads.
use Prim.Native.Nat.{bit_and, bit_or}
use atophttpd.Prelude.{
  ℕ, zero, suc, ◌<◌, ◌==◌, Bool, not, ℤ, pos, negsuc, Bytes, Option, ◌≡◌, ◌⊎◌, inl, inr, refl, ◌+◌,
  ◌≤◌, if◌then◌else◌,
}

-- struct rawheader
pub record RawHeader : Type 0 where
  pub magic : ℕ
  pub aversion : ℕ
  pub rawheadlen : ℕ
  pub rawreclen : ℕ
  pub supportflags : ℕ
  pub sstatlen : ℕ
  pub tstatlen : ℕ

-- struct rawrecord
pub record RawRecord : Type 0 where
  pub curtime : ℤ
  pub flags : ℕ
  pub scomplen : ℕ
  pub pcomplen : ℕ
  pub interval : ℕ
  pub ndeviat : ℕ
  pub nactproc : ℕ
  pub totproc : ℕ
  pub totrun : ℕ
  pub totslpi : ℕ
  pub totslpu : ℕ
  pub totzomb : ℕ
  pub nexit : ℕ
  pub noverflow : ℕ

-- Sizes and masks of atop's headers.
pub record Atop : Type 0 where
  pub mymagic : ℕ
  pub numvers : ℕ
  pub sizeof_rawheader : ℕ
  pub sizeof_rawrecord : ℕ
  pub sizeof_sstat : ℕ
  pub sizeof_tstat : ℕ
  pub rawlogng : ℕ
  pub rracctactive : ℕ
  pub rriostat : ℕ
  pub rrnetatop : ℕ
  pub rrnetatopd : ℕ
  pub rrcgrstat : ℕ
  pub rrdockstat : ℕ
  pub rrgpustat : ℕ
  pub acctactive : ℕ
  pub iostat : ℕ
  pub netatop : ℕ
  pub netatopd : ℕ
  pub cgroupv2 : ℕ
  pub dockstat : ℕ
  pub gpustat : ℕ
  pub rawrecord_pos : 0 < sizeof_rawrecord

-- A system call gives a value, or fails with `errno`.
pub data Sys {ℓ} (A : Type ℓ) : Type ℓ where
  ok : A → Sys A
  failed : ℕ → Sys A

pub Sys-cases {ℓ} : {A : Type ℓ} (s : Sys A) → ((e : ℕ) × (s ≡ failed e)) ⊎ ((a : A) × (s ≡ ok a))
Sys-cases (ok a) = inr (a, refl)
Sys-cases (failed e) = inl (e, refl)

-- `-e`, for an error number.
abbrev pub minus : ℕ → ℤ
minus zero = pos 0
minus (suc n) = negsuc n

abbrev pub enomem : ℕ
enomem = 12

abbrev pub eio : ℕ
eio = 5

abbrev pub einval : ℕ
einval = 22

abbrev pub enodata : ℕ
enodata = 61

-- `flags & mask`, as a condition.
abbrev pub has_flag : ℕ → ℕ → Bool
has_flag flags mask = not (bit_and flags mask == 0)

-- `if (c) ret |= flag;`
abbrev pub or_if : Bool → ℕ → ℕ → ℕ
or_if c ret flag = if c then bit_or ret flag else ret

pub record Stat : Type 0 where
  pub st_size : ℕ
  pub st_mtim : ℕ

-- What `read` and `pread` answer: all the bytes, fewer, or -1.
pub data Reading (A : Type 0) : Type 0 where
  full_read : A → Reading A
  short_read failed_read : Reading A

pub Reading-cases :
    {A : Type 0} (r : Reading A)
    → ((a : A) × (r ≡ full_read a)) ⊎ ((r ≡ short_read) ⊎ (r ≡ failed_read))
Reading-cases (full_read a) = inl (a, refl)
Reading-cases short_read = inr (inl refl)
Reading-cases failed_read = inr (inr refl)

-- An open rawlog file as the calls on it see it.
pub record RawFile : Type 0 where
  pub len : ℕ
  pub header : Reading RawHeader
  pub tell : Sys ℕ
  pub record_at : ℕ → Reading RawRecord
  pub bytes_at : ℕ → ℕ → Option Bytes
  pub fstat : Sys Stat

-- A full record lies inside the file.
pub record IsFile (a : Atop) (f : RawFile) : Type 0 where
  pub inside :
      (off : ℕ) (rr : RawRecord) → f.record_at off ≡ full_read rr → off + a.sizeof_rawrecord ≤ f.len

pub record FileSystem : Type 0 where
  pub open_file : Bytes → Sys RawFile
  pub stat : Bytes → Sys Stat
