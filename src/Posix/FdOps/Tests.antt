-- ===== src/Posix/FdOps/Tests.antt =====
-- Calls on file descriptors. A file is a number; none can be made non-blocking.
use chenlongos.Prelude.{ℕ, ◌≡◌, refl, Bool, true, false, some, List, [], ◌∷◌, arith}
use chenlongos.Prelude.Int.{ℤ, pos, negsuc}
use chenlongos.FlattenObjects.{FlattenObjects}
use chenlongos.FlattenObjects.Bitmap.{functions, functions_laws}
use chenlongos.FlattenObjects.Ids.{IsValid}
use chenlongos.FlattenObjects.Alloc.{fresh, fresh-IsValid, assigned, assigned-IsValid}
use chenlongos.Posix.FdOps.{
  LinuxResult, ok, err, other, Call, close, dup, dup2, fcntl, run, sys_dup2,
}
use chenlongos.Posix.FdOps.Calls.{Safe}
use chenlongos.Posix.FdOps.Safety.{dup2_same, run-Safe}

abbrev set_nonblocking : ℕ → Bool → LinuxResult (Unit {0})
set_nonblocking f true = err (other 22)
set_nonblocking f false = ok tt

abbrev Table : Type 0
Table = FlattenObjects functions ℕ

-- The standard input is open.
abbrev table : Table
table = assigned functions_laws (fresh functions_laws 1024) 0 70

table-IsValid : IsValid table
table-IsValid =
    assigned-IsValid functions_laws (fresh functions_laws 1024) 0 70
      (fresh-IsValid functions_laws 1024 (omega arith)) (omega arith) refl

abbrev calls : List Call
calls =
    dup (pos 0) ∷ dup2 (pos 0) (pos 5) ∷ close (pos 5) ∷ fcntl (negsuc 0) 4 0 ∷ close (pos 0) ∷ []

run-Safe_example :
    (t' : Table) × (rs : List ℤ) × (run set_nonblocking table calls ≡ some (t', rs)) × Safe table t'
run-Safe_example =
    run-Safe functions_laws set_nonblocking table calls table-IsValid refl
      (omega arith, ((omega arith, omega arith), (omega arith, (omega arith, (omega arith, tt)))))

dup2_same_example : sys_dup2 set_nonblocking table (pos 9) (pos 9) ≡ some (table, pos 9)
dup2_same_example = dup2_same set_nonblocking table (pos 9)
