-- ===== src/Posix/FdOps.antt =====
-- The table of file descriptors, api/arceos_posix_api/src/imp/fd_ops.rs, with `syscall_body!` of
-- src/utils.rs. The outer `none` of a call is a panic. A file is any value of `F`: the table only
-- passes files on, but for `set_nonblocking`, which is a method of the file.
pub mod Calls
pub mod Safety
mod Tests
use chenlongos.Prelude.{
  ℕ, ◌<◌, suc, ◌-◌, ◌^◌, Bool, true, false, ◌||◌, Option, none, some, leb, ◌==◌, if◌then◌else◌,
  ◌>>=◌, ◌%◌, ◌/◌, List, [], ◌∷◌,
}
use chenlongos.Prelude.Int.{ℤ, pos, negsuc}
use chenlongos.FlattenObjects.{FlattenObjects, get, add, add_at, remove}
use chenlongos.FlattenObjects.Bitmap.{BitmapOps}

-- The errors that this code gives, and any other by its code (crates/axerrno/src/errno.h).
pub data LinuxError : Type 0 where
  ebadf emfile : LinuxError
  other : ℕ → LinuxError

abbrev pub code : LinuxError → ℕ
code ebadf = 9
code emfile = 24
code (other n) = n

pub data LinuxResult {ℓ} (A : Type ℓ) : Type ℓ where
  ok : A → LinuxResult A
  err : LinuxError → LinuxResult A

abbrev pub ok_or {ℓ} : {A : Type ℓ} → Option A → LinuxError → LinuxResult A
ok_or none e = err e
ok_or (some a) e = ok a

-- `-e.code()`, with the code of an error above zero.
abbrev pub neg : ℕ → ℤ
neg n = if n == 0 then pos 0 else negsuc (n - 1)

-- `syscall_body!`: an error is returned as its negated code.
abbrev pub syscall_body : LinuxResult ℤ → ℤ
syscall_body (ok v) = v
syscall_body (err e) = neg (code e)

-- `fd as usize`: a negative number wraps round.
abbrev pub as_usize : ℤ → ℕ
as_usize (pos n) = n
as_usize (negsuc n) = 2 ^ 64 - suc n

abbrev pub file_limit : ℕ
file_limit = 1024

-- ulib/axlibc/include/fcntl.h
abbrev pub f_dupfd : ℕ
f_dupfd = 0

abbrev pub f_getfd : ℕ
f_getfd = 1

abbrev pub f_setfl : ℕ
f_setfl = 4

abbrev pub f_dupfd_cloexec : ℕ
f_dupfd_cloexec = 1030

-- `arg & O_NONBLOCK > 0`, for the single bit 0o4000.
abbrev pub wants_nonblock : ℕ → Bool
wants_nonblock arg = (arg / 2 ^ 11) % 2 == 1

-- `(0..=2).contains(&fd)`
abbrev pub is_std : ℤ → Bool
is_std (pos n) = leb n 2
is_std (negsuc n) = false

abbrev pub eq_ℤ : ℤ → ℤ → Bool
eq_ℤ (pos a) (pos b) = a == b
eq_ℤ (negsuc a) (negsuc b) = a == b
eq_ℤ (pos a) (negsuc b) = false
eq_ℤ (negsuc a) (pos b) = false

-- What a `c_int` can hold.
abbrev pub IsCInt : ℤ → Type 0
IsCInt (pos n) = n < 2 ^ 31
IsCInt (negsuc n) = n < 2 ^ 31

pub data Call : Type 0 where
  close dup : ℤ → Call
  dup2 : ℤ → ℤ → Call
  fcntl : ℤ → ℕ → ℕ → Call

module _ {ℓ} {B : BitmapOps} {F : Type ℓ} where
  pub get_file_like : FlattenObjects B F → ℤ → Option (LinuxResult F)
  get_file_like t fd = get t (as_usize fd) >>= λ o. some (ok_or o ebadf)

  pub add_file_like : FlattenObjects B F → F → Option (FlattenObjects B F × LinuxResult ℤ)
  add_file_like t f = add t f >>= λ (t', o). some (t', ok_or (o >>= λ id. some (pos id)) emfile)

  -- The value that a successful call gives is `()`.
  pub close_file_like :
      FlattenObjects B F → ℤ → Option (FlattenObjects B F × LinuxResult (Unit {0}))
  close_file_like t fd =
      remove t (as_usize fd) >>= λ (t', o). some (t', ok_or (o >>= λ f. some tt) ebadf)

  pub sys_close : FlattenObjects B F → ℤ → Option (FlattenObjects B F × ℤ)
  sys_close t fd =
      let closed : Option (FlattenObjects B F × ℤ) = close_file_like t fd >>= λ (t', r).
      some (t', syscall_body (elim r [ ok u ↦ ok (pos 0) | err e ↦ err e ])) in
      if is_std fd then some (t, pos 0) else closed

  pub dup_fd : FlattenObjects B F → ℤ → Option (FlattenObjects B F × LinuxResult ℤ)
  dup_fd t old_fd =
      get_file_like t old_fd >>= elim [ ok f ↦ add_file_like t f | err e ↦ some (t, err e) ]

  pub sys_dup : FlattenObjects B F → ℤ → Option (FlattenObjects B F × ℤ)
  sys_dup t old_fd = dup_fd t old_fd >>= λ (t', r). some (t', syscall_body r)

  -- `set_nonblocking` is the method of the file. `cmd` is the command as a `u32`.
  pub sys_fcntl :
      (F → Bool → LinuxResult (Unit {0}))
      → FlattenObjects B F
      → ℤ
      → ℕ
      → ℕ
      → Option (FlattenObjects B F × ℤ)
  sys_fcntl set_nonblocking t fd cmd arg =
      let dup : Option (FlattenObjects B F × ℤ) =
        dup_fd t fd >>= λ (t', r). some (t', syscall_body r) in
      let set_fl : Option (FlattenObjects B F × ℤ) = get_file_like t fd >>= elim [
        | ok f ↦ elim (set_nonblocking f (wants_nonblock arg)) [
          | ok u ↦ some (t, pos 0)
          | err e ↦ some (t, neg (code e))
        ]
        | err e ↦ some (t, neg (code e))
      ] in
      if cmd == f_dupfd || cmd == f_dupfd_cloexec
      then dup
      else (if cmd == f_setfl
          then (if is_std fd then some (t, pos 0) else set_fl)
          else some (t, pos 0))

  pub sys_dup2 :
      (F → Bool → LinuxResult (Unit {0}))
      → FlattenObjects B F
      → ℤ
      → ℤ
      → Option (FlattenObjects B F × ℤ)
  unfolding sys_fcntl
  sys_dup2 set_nonblocking t old_fd new_fd =
      let same : Option (FlattenObjects B F × ℤ) =
        sys_fcntl set_nonblocking t old_fd f_getfd 0 >>= λ (t', r).
        some (t', elim r [ pos n ↦ old_fd | negsuc n ↦ negsuc n ]) in
      let other_fd : Option (FlattenObjects B F × ℤ) = get_file_like t old_fd >>= elim [
        | ok f ↦ add_at t (as_usize new_fd) f >>= λ (t', o).
            some (t', syscall_body (ok_or (o >>= λ id. some new_fd) emfile))
        | err e ↦ some (t, neg (code e))
      ] in
      if eq_ℤ old_fd new_fd
      then same
      else (if leb file_limit (as_usize new_fd) then some (t, neg (code ebadf)) else other_fd)

  -- A program's calls, one after the other; what each returned.
  pub call :
      (F → Bool → LinuxResult (Unit {0}))
      → FlattenObjects B F
      → Call
      → Option (FlattenObjects B F × ℤ)
  call set_nonblocking t (close fd) = sys_close t fd
  call set_nonblocking t (dup fd) = sys_dup t fd
  call set_nonblocking t (dup2 old_fd new_fd) = sys_dup2 set_nonblocking t old_fd new_fd
  call set_nonblocking t (fcntl fd cmd arg) = sys_fcntl set_nonblocking t fd cmd arg

  pub run :
      (F → Bool → LinuxResult (Unit {0}))
      → FlattenObjects B F
      → List Call
      → Option (FlattenObjects B F × List ℤ)
  run set_nonblocking t [] = some (t, [])
  run set_nonblocking t (c ∷ cs) = call set_nonblocking t c >>= λ (t', r).
      run set_nonblocking t' cs >>= λ (t'', rs). some (t'', r ∷ rs)
