-- ===== src/Cmd/Service/Shutdown.antt =====
-- internal/cmd/servicehandler.go and bootstrap.go: the services that a handler shuts down. A service
-- and what its shutdown returns are parameters.
use mathlib.Core.List.{reverse, reverse_aux, append_assoc}
use ad_guard_dnscli.Base.{
  ℕ, suc, ◌≡◌, ◌↔◌, refl, ◌∙◌, Option, none, some, List, [], ◌∷◌, ◌++◌, All, arith, String,
}
use ad_guard_dnscli.Errors.{Error, Errs, IsNil, wrapf, num, join, join_iff, All-append_iff}

abbrev pub indexed : String → ℕ → Option Error → Option Error
indexed f i none = none
indexed f i (some e) = some (wrapf f (num i ∷ []) e)

pub record ServiceHandler {ℓ} (Service : Type ℓ) : Type ℓ where
  pub services : List Service

module _ {ℓ} {Service : Type ℓ} where
  unfoldable pub add : List Service → ServiceHandler Service → ServiceHandler Service
  add svcs h = record { services = h.services ++ svcs }

  module _ (stop : Service → Option Error) where
    -- The loop of `shutdown` over the services from the index `i` on, backwards: the services in
    -- the order in which they are shut down, and the errors. A `nil` stands for no error.
    unfoldable pub backward : ℕ → List Service → List Service × Errs
    backward i [] = ([], [])
    backward i (s ∷ ss) =
        let (before, errs) = backward (suc i) ss in
        (before ++ s ∷ [], errs ++ indexed "service: at index %d: %w" i (stop s) ∷ [])

    unfoldable pub shutdown : ServiceHandler Service → List Service × Option Error
    unfolding backward
    shutdown h = let (order, errs) = backward 0 h.services in (order, join errs)

    -- `closersShutdowner.Shutdown`: the loop over the closers from the index `i` on.
    unfoldable pub close_all : ℕ → List Service → Errs
    close_all i [] = []
    close_all i (c ∷ cs) =
        indexed "closing bootstrap at index %d: %w" i (stop c) ∷ close_all (suc i) cs

    unfoldable pub shutdown_closers : List Service → Option Error
    unfolding close_all
    shutdown_closers cs = join (close_all 0 cs)

    indexed_iff : (f : String) (i : ℕ) (e : Option Error) → (indexed f i e ≡ none) ↔ (e ≡ none)
    indexed_iff f i none = ground arith
    indexed_iff f i (some e) = ground arith

    backward-errors_iff :
        (i : ℕ) (ss : List Service) → All IsNil (backward i ss).1 ↔ All (λ s. stop s ≡ none) ss
    unfolding backward
    backward-errors_iff i [] = ((λ h. tt), λ h. tt)
    backward-errors_iff i (s ∷ ss) = (
      (λ h.
          let (rest, (own, _)) = (All-append_iff (backward (suc i) ss).1 _).0 h in
          (
            (indexed_iff "service: at index %d: %w" i (stop s)).0 own,
            (backward-errors_iff (suc i) ss).0 rest,
          )),
      (λ (own, rest). (All-append_iff (backward (suc i) ss).1 _).1 (
        (backward-errors_iff (suc i) ss).1 rest,
        ((indexed_iff "service: at index %d: %w" i (stop s)).1 own, tt),
      )),
    )

    backward-onto : (i : ℕ) (ss acc : List Service) → (backward i ss).0 ++ acc ≡ reverse_aux ss acc
    unfolding backward
    backward-onto i [] acc = refl
    backward-onto i (s ∷ ss) acc =
        append_assoc (backward (suc i) ss).0 (s ∷ []) acc ∙ backward-onto (suc i) ss (s ∷ acc)

    backward-order : (i : ℕ) (ss : List Service) → (backward i ss).0 ≡ reverse ss
    unfolding backward
    backward-order i [] = refl
    backward-order i (s ∷ ss) = backward-onto (suc i) ss (s ∷ [])

    -- All services are shut down, in the reverse of the order in which they were added, whatever the
    -- earlier ones return, and there is no error exactly when none of them returns one.
    pub shutdown-reverse :
        (h : ServiceHandler Service)
        → ((shutdown h).0 ≡ reverse h.services)
          × (((shutdown h).1 ≡ none) ↔ All (λ s. stop s ≡ none) h.services)
    unfolding shutdown
    shutdown-reverse h = (
      backward-order 0 h.services,
      (
        (λ e. (backward-errors_iff 0 h.services).0 ((join_iff _).0 e)),
        λ fine. (join_iff _).1 ((backward-errors_iff 0 h.services).1 fine),
      ),
    )

    close_all-errors_iff :
        (i : ℕ) (cs : List Service) → All IsNil (close_all i cs) ↔ All (λ c. stop c ≡ none) cs
    unfolding close_all
    close_all-errors_iff i [] = ((λ h. tt), λ h. tt)
    close_all-errors_iff i (c ∷ cs) = (
      (λ (own, rest). (
        (indexed_iff "closing bootstrap at index %d: %w" i (stop c)).0 own,
        (close_all-errors_iff (suc i) cs).0 rest,
      )),
      (λ (own, rest). (
        (indexed_iff "closing bootstrap at index %d: %w" i (stop c)).1 own,
        (close_all-errors_iff (suc i) cs).1 rest,
      )),
    )

    pub shutdown_closers-none_iff :
        (cs : List Service) → (shutdown_closers cs ≡ none) ↔ All (λ c. stop c ≡ none) cs
    unfolding shutdown_closers
    shutdown_closers-none_iff cs = (
      (λ e. (close_all-errors_iff 0 cs).0 ((join_iff _).0 e)),
      (λ fine. (join_iff _).1 ((close_all-errors_iff 0 cs).1 fine)),
    )
