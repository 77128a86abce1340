-- ===== src/Vm/Exits.antt =====
-- What the loop of `vm_run` in src/vm.c does with a sequence of exits, and when it returns.
use blackhv.Base.{
  ℕ, ◌≡◌, refl, Bool, true, false, none, some, List, [], ◌∷◌, ◌++◌, ◌>>=◌, Exec, ok, fault,
  out_of_fuel,
}
use blackhv.Io.{Handlers}
use blackhv.Mmio.{MmioRegion, MmioCall}
use blackhv.Vm.Run.{KvmExit, run_failed, exit_other, handle_exit, vm_run_loop, vm_run}

-- The exits that end the loop.
pub data IsFinal : KvmExit → Type 0 where
  failure : IsFinal run_failed
  unknown : {n : ℕ} → IsFinal (exit_other n)

module _ {S : Type 0} (handlers : Handlers S)
    (call : MmioCall → List MmioRegion × S → List MmioRegion × S) where
  -- The exits `es` are handled one after the other from a state to a state, and leave these pages.
  pub data Handles
      : List KvmExit → List MmioRegion × S → List (List ℕ) → List MmioRegion × S → Type 0 where
    nothing : {s : List MmioRegion × S} → Handles [] s [] s
    one_more :
        {e : KvmExit} {es : List KvmExit} {s s' s'' : List MmioRegion × S} {p ps : List (List ℕ)}
        → handle_exit handlers call e s ≡ ok (some (p, s'))
        → Handles es s' ps s''
        → Handles (e ∷ es) s (p ++ ps) s''

  final_exit :
      {e : KvmExit} (rest : List KvmExit) (s : List MmioRegion × S)
      → IsFinal e
      → vm_run_loop handlers call (e ∷ rest) s ≡ ok (0, [], s)
  unfolding vm_run_loop
  final_exit rest s failure = refl
  final_exit rest s unknown = refl

  -- If the exits before a failure of KVM_RUN or an unknown exit are handled one after the other
  -- without a fault, `vm_run` returns 0 at that exit, in the state and with the shared pages that
  -- the handling left.
  pub vm_run-Handles :
      (es : List KvmExit) (e : KvmExit) (rest : List KvmExit) (s s' : List MmioRegion × S)
      (ps : List (List ℕ))
      → Handles es s ps s'
      → IsFinal e
      → vm_run handlers call true (es ++ (e ∷ rest)) s ≡ ok (0, ps, s')
  unfolding vm_run vm_run_loop
  vm_run-Handles es e rest s s' ps nothing fin = final_exit rest s fin
  vm_run-Handles es e rest s s'' ps (one_more {s' = s'} step more) fin =
      rw (step, vm_run-Handles _ e rest s' s'' _ more fin) refl

  -- If the run returns, it returns 0.
  abbrev pub OnlyZero : Exec (ℕ × List (List ℕ) × (List MmioRegion × S)) → Type 0
  OnlyZero (ok x) = x.0 ≡ 0
  OnlyZero fault = Unit
  OnlyZero out_of_fuel = Unit

  bind-OnlyZero :
      {A : Type 0} (r : Exec A) (k : A → Exec (ℕ × List (List ℕ) × (List MmioRegion × S)))
      → ((a : A) → OnlyZero (k a))
      → OnlyZero (r >>= k)
  bind-OnlyZero (ok a) k each = each a
  bind-OnlyZero fault k each = tt
  bind-OnlyZero out_of_fuel k each = tt

  pages-OnlyZero :
      (pages : List (List ℕ)) (r : Exec (ℕ × List (List ℕ) × (List MmioRegion × S)))
      → OnlyZero r
      → OnlyZero (do (result, pages', s') ← r; ok (result, pages ++ pages', s'))
  pages-OnlyZero pages (ok x) zero' = zero'
  pages-OnlyZero pages fault zero' = tt
  pages-OnlyZero pages out_of_fuel zero' = tt

  loop-OnlyZero :
      (es : List KvmExit) (s : List MmioRegion × S) → OnlyZero (vm_run_loop handlers call es s)
  unfolding vm_run_loop
  loop-OnlyZero [] s = tt
  loop-OnlyZero (x ∷ es) s = bind-OnlyZero (handle_exit handlers call x s) _ (elim [
    | none ↦ refl
    | some (pages, s') ↦
        pages-OnlyZero pages (vm_run_loop handlers call es s') (loop-OnlyZero es s')
  ])

  -- No run of `vm_run` returns anything but 0, whatever the exits and the handlers do.
  pub vm_run-OnlyZero :
      (ready : Bool) (es : List KvmExit) (s : List MmioRegion × S)
      → OnlyZero (vm_run handlers call ready es s)
  unfolding vm_run
  vm_run-OnlyZero false es s = refl
  vm_run-OnlyZero true es s = loop-OnlyZero es s
