-- ===== src/Vm/Life.antt =====
-- A machine from `vm_new` of src/vm.c to `vm_destroy`: its descriptors and its mappings.
use blackhv.Base.{
  ℕ, ◌≡◌, refl, ◌≢◌, true, false, Option, none, some, List, [], ◌∷◌, ◌++◌, All, ℤ, ◌>>=◌, Exec,
  Returns, ok, returns,
}
use blackhv.Memory.{HostCall, memory_new}
use blackhv.Memory.Balance.{Request, alloc_all, maps, unmaps, memory_destroy-balanced}
use blackhv.Vm.{is_negative, vm_new, vm_destroy}

-- A machine is made, regions are allocated in it, and it is destroyed: the calls made for the
-- regions and for their end, and the descriptors closed.
unfoldable pub lifetime : (fd vm_fd : ℤ) → List Request → Exec (Option (List HostCall × List ℤ))
unfolding vm_new vm_destroy
lifetime fd vm_fd requests = do
  (made, closed) ← vm_new fd vm_fd true true true
  elim made [
    | none ↦ ok none
    | some vm ↦ elim vm.mem [
      | none ↦ ok none
      | some mem ↦
          let (mem', calls) = alloc_all requests mem in
          let (last, closed') = vm_destroy (some (record vm { mem = mem' })) in
          ok (some (calls ++ last, closed ++ closed'))
    ]
  ]

-- The two descriptors are closed, and each mapping is given back as often as it was made.
abbrev pub IsClean : (fd vm_fd : ℤ) → Option (List HostCall × List ℤ) → Type 0
IsClean fd vm_fd none = ⊥
IsClean fd vm_fd (some (calls, closed)) =
    (closed ≡ fd ∷ vm_fd ∷ []) × ((a s : ℕ) → a ≢ 0 → maps a s calls ≡ unmaps a s calls)

-- A machine that `vm_new` makes with descriptors that are not negative, that is given any
-- regions, granted or refused, with a list element for each, and that is destroyed, has closed
-- its two descriptors in turn and unmapped each mapping of memory as often as it was made.
pub lifetime-IsClean :
    (fd vm_fd : ℤ) (requests : List Request)
    → is_negative fd ≡ false
    → is_negative vm_fd ≡ false
    → All (λ r. r.host.element_memory ≡ true) requests
    → Returns (IsClean fd vm_fd) (lifetime fd vm_fd requests)
unfolding lifetime vm_new vm_destroy memory_new
lifetime-IsClean fd vm_fd requests opened created listed =
    rw (opened, created)
      (returns (refl, λ a s ne. memory_destroy-balanced requests 0 a s ne listed))
