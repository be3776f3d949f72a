-- ===== src/Probes/Runner.antt =====
-- windows-native/wifi/pmu-probe/run_probe_once.c: the system calls that it makes, given what `openat`
-- and `finit_module` answer. The strings that it writes are told by their order in the source.
use a1625_linux_winboot.Prelude.{
  ℕ, ◌+◌, ◌≤◌, ◌⊎◌, ◌↔◌, ◌≡◌, Bool, true, false, not, ◌&&◌, ◌==◌, if◌then◌else◌, ℤ, pos, negsuc,
  neg, negative, ap, refl, Option, none, some, List, [], ◌∷◌, arith,
}

pub data Syscall : Type 0 where
  write : (fd message : ℕ) → Syscall
  openat : (path : ℕ) → Syscall
  finit_module : (fd : ℤ) (options : Option ℕ) → Syscall
  close : (fd : ℤ) → Syscall
  exit : (code : ℕ) → Syscall

-- `result == -125`
abbrev pub is_ecanceled : ℤ → Bool
is_ecanceled (pos n) = false
is_ecanceled (negsuc n) = n == 124

-- `stack[2]` is the path and `stack[3]` the options; no options are the empty string.
unfoldable pub run : (argc path options : ℕ) (fd result : ℤ) → List Syscall
run argc path options fd result =
    if not (argc == 2) && not (argc == 3)
    then write 2 0 ∷ exit 2 ∷ []
    else if negative fd
    then openat path ∷ write 2 1 ∷ exit 1 ∷ []
    else openat path
      ∷ finit_module fd (if argc == 3 then some options else none)
      ∷ close fd
      ∷ (if is_ecanceled result then write 2 2 ∷ exit 0 ∷ [] else write 2 3 ∷ exit 1 ∷ [])

abbrev pub loads : List Syscall → ℕ
loads [] = 0
loads (finit_module fd options ∷ rest) = 1 + loads rest
loads (x ∷ rest) = loads rest

-- How it ends, if it does.
abbrev pub exit_code : List Syscall → Option ℕ
exit_code [] = none
exit_code (exit c ∷ rest) = some c
exit_code (x ∷ rest) = exit_code rest

-- How often a file is closed.
abbrev pub closes : List Syscall → ℕ
closes [] = 0
closes (close fd ∷ rest) = 1 + closes rest
closes (x ∷ rest) = closes rest

is_ecanceled-neg : (result : ℤ) → is_ecanceled result ≡ true → result ≡ neg 125
is_ecanceled-neg (pos n) h = cc
is_ecanceled-neg (negsuc n) h = let e : n ≡ 124 = ground arith in ap negsuc e

neg-is_ecanceled : (result : ℤ) → result ≡ neg 125 → is_ecanceled result ≡ true
neg-is_ecanceled result e = rw e refl

open_file : (fd : ℤ) → negative fd ≡ false → (n : ℕ) × (fd ≡ pos n)
open_file (pos n) h = (n, refl)
open_file (negsuc n) h = cc

opened : (fd : ℤ) → (n : ℕ) × (fd ≡ pos n) → negative fd ≡ false
opened fd (n, e) = rw e refl

-- The runner asks for the module to be loaded at most once, and closes the file just as often. It
-- exits with 0 just when it was called with one argument or two, `openat` answered a descriptor,
-- and `finit_module` answered -125, which is -ECANCELED.
pub run-Once :
    (argc path options : ℕ) (fd result : ℤ)
    → (loads (run argc path options fd result) ≤ 1)
      × (closes (run argc path options fd result) ≡ loads (run argc path options fd result))
      × ((exit_code (run argc path options fd result) ≡ some 0)
          ↔ (((argc ≡ 2) ⊎ (argc ≡ 3)) × ((n : ℕ) × (fd ≡ pos n)) × (result ≡ neg 125)))
unfolding run
run-Once argc path options fd result = (
  ground arith,
  ground arith,
  (
    λ h.
        let args : (argc ≡ 2) ⊎ (argc ≡ 3) = ground arith in
        let file : negative fd ≡ false = ground arith in
        let code : is_ecanceled result ≡ true = ground arith in
        (args, open_file fd file, is_ecanceled-neg result code),
    λ h.
        let file : negative fd ≡ false = opened fd h.1 in
        let code : is_ecanceled result ≡ true = neg-is_ecanceled result h.2 in ground (arith, h.0),
  ),
)
