-- ===== src/Server/Auth.antt =====
-- internal/server/middleware.go: AuthMiddleware.
use mathlib.Core.Option.{none-ne-some}
use qudata_agent.Common.{
  ℕ, refl, sym, ap, inl, inr, false, Option, none, some, Bool-cases, is_nil, ◌≡◌, ◌⊎◌, ◌↔◌, ◌∙◌,
  if◌then◌else◌, true-ne-false,
}
use qudata_agent.Common.Text.{Text, text_eq, str, text_eq_iff}

-- The response that ends a request, or none if the handlers behind get it. `provided` is the header
-- X-Agent-Secret, empty where the request has none.
unfoldable pub authorize : Text → Text → Text → Option (ℕ × Text)
authorize secret path provided =
    if text_eq path (str "/ping")
    then none
    else if is_nil provided
    then some (401, str "missing X-Agent-Secret header")
    else if text_eq provided secret
    then none
    else some (403, str "invalid secret")

-- Who is let through: anyone to /ping, and who gives the agent's secret, which is not empty then.
abbrev pub IsAllowed : Text → Text → Text → Type 0
IsAllowed secret path provided =
    (path ≡ str "/ping") ⊎ ((provided ≡ secret) × (is_nil secret ≡ false))

-- A request reaches the handlers if and only if it is for /ping or has the agent's secret, and the
-- secret is not empty.
pub authorize-IsAllowed :
    (secret path provided : Text)
    → (authorize secret path provided ≡ none) ↔ IsAllowed secret path provided
unfolding authorize
authorize-IsAllowed secret path provided = elim (Bool-cases (text_eq path (str "/ping"))) [
  | inl ping ↦ (λ h. inl ((text_eq_iff path (str "/ping")).0 ping), λ h. rw ping refl)
  | inr p ↦ elim (Bool-cases (is_nil provided)) [
    | inl e ↦ (
      λ h. absurd (none-ne-some _ (sym (rw (p, e) at (h)))),
      λ h. absurd (elim h [
        | inl same ↦ true-ne-false (sym ((text_eq_iff path (str "/ping")).1 same) ∙ p)
        | inr (same, full) ↦ true-ne-false (sym e ∙ ap is_nil same ∙ full)
      ]),
    )
    | inr e ↦ elim (Bool-cases (text_eq provided secret)) [
      | inl s ↦ (
        λ h. inr (
          (text_eq_iff provided secret).0 s,
          ap is_nil (sym ((text_eq_iff provided secret).0 s)) ∙ e,
        ),
        λ h. rw (p, e, s) refl,
      )
      | inr s ↦ (
        λ h. absurd (none-ne-some _ (sym (rw (p, e, s) at (h)))),
        λ h. absurd (elim h [
          | inl same ↦ true-ne-false (sym ((text_eq_iff path (str "/ping")).1 same) ∙ p)
          | inr (same, full) ↦ true-ne-false (sym ((text_eq_iff provided secret).1 same) ∙ s)
        ]),
      )
    ]
  ]
]
