-- ===== src/Controller/Command/Unload.antt =====
-- src/client-access-bpfctl.c: what `unload` leaves.
use client_access.Prelude.{
  ℕ, ◌≡◌, ◌∙◌, refl, ap, false, none, some, List, inl, inr, arith, Bool-cases, Option-cases,
}
use client_access.Tc.{Name}
use client_access.Controller.{Bpf, MapName, ca_config, detach_all, object_unlink}
use client_access.Controller.Loading.{IsDetached, detach_all-IsDetached}
use client_access.Controller.Runtime.{ConfigCalls, backend_disable_unlocked}
use client_access.Controller.Command.{World, unload_backend}

disable-program :
    (calls : ConfigCalls) (bpf : Bpf) → (backend_disable_unlocked calls bpf).1.program ≡ bpf.program
unfolding backend_disable_unlocked
disable-program calls bpf = elim (Bool-cases (bpf.maps ca_config)) [
  | inr closed ↦ rw (closed, backend_disable_unlocked) refl
  | inl opened ↦ elim (Option-cases bpf.config) [
    | inl unset ↦ simp (opened, unset, backend_disable_unlocked)
    | inr (config, set) ↦ elim (Bool-cases calls.updates) [
      | inl done ↦ simp (opened, set, done, backend_disable_unlocked)
      | inr failure ↦ simp (opened, set, failure, backend_disable_unlocked)
    ]
  ]
]

-- Where a program is pinned, and its pin and the list of the interfaces can be read, an unload that
-- reports success leaves no program and no map pinned, and leaves the former program neither at the
-- owned nor at the former coordinate of an interface of the list.
pub unload_backend-IsDetached :
    (world : World) (bpf : Bpf) (id : ℕ) (interfaces : List (ℕ × Name))
    → world.system.pin_fails ≡ false
    → bpf.program ≡ some id
    → world.system.interfaces ≡ some interfaces
    → (unload_backend world bpf).0 ≡ 0
    → ((unload_backend world bpf).1.program ≡ none)
      × ((name : MapName) → (unload_backend world bpf).1.maps name ≡ false)
      × IsDetached id interfaces (unload_backend world bpf).1
unfolding unload_backend object_unlink
unload_backend-IsDetached world bpf id interfaces readable own listed ok =
    let quiet = (backend_disable_unlocked world.config_calls bpf).1 in
    elim (Bool-cases (backend_disable_unlocked world.config_calls bpf).0) [
      | inr on ↦ absurd (ground (arith, rw (on, unload_backend) at ok))
      | inl off ↦ elim (Bool-cases (detach_all world.system quiet).0) [
        | inr stuck ↦ absurd (ground (arith, rw (off, stuck, unload_backend) at ok))
        | inl free ↦
            let is : (unload_backend world bpf).1
                ≡ object_unlink (detach_all world.system quiet).1 =
              rw (off, free, unload_backend) refl in
            (
              ap (λ b. b.program) is,
              λ name. ap (λ b. b.maps name) is,
              λ e at. rw is (
                  detach_all-IsDetached world.system quiet id interfaces readable
                    (disable-program world.config_calls bpf ∙ own) listed free e at),
            )
      ]
    ]
