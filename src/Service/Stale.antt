-- ===== src/Service/Stale.antt =====
-- internal/nmplugin/service.go, `NewSecrets`: an answer to an earlier prompt is ignored.
use network_manager_vpn_plug.Prelude.{
  ℕ, false, [], ◌∷◌, some, ◌≡◌, ◌≢◌, refl, arith, text_eq, text_eq_iff, is_empty, if◌then◌else◌,
  ◌==◌, Bool-cases, inl, inr, Text,
}
use network_manager_vpn_plug.Go.Decimal.{format_uint, format_uint_injective, format_uint-ne-nil}
use network_manager_vpn_plug.Settings.Parse.{ActivationSettings}
use network_manager_vpn_plug.Service.Locked.{
  new_secrets_at, new_secrets_locked, handle_new_secrets_locked,
}
use network_manager_vpn_plug.Service.Prompts.{format_activation_id}
use network_manager_vpn_plug.Service.State.{ActivationPrompt, World}

not_empty : (t : Text) → t ≢ [] → is_empty t ≡ false
not_empty [] h = absurd (h refl)
not_empty (c ∷ s) h = refl

differs : (i j : ℕ) → i ≢ j → text_eq (format_activation_id i) (format_activation_id j) ≡ false
unfolding format_activation_id
differs i j ne = elim (Bool-cases (text_eq (format_uint i) (format_uint j))) [
  | inl same ↦ absurd (ne (format_uint_injective i j ((text_eq_iff _ _).0 same)))
  | inr e ↦ e
]

id_not_empty : (i : ℕ) → is_empty (format_activation_id i) ≡ false
unfolding format_activation_id
id_not_empty i = not_empty (format_uint i) (format_uint-ne-nil i)

-- While a prompt is open, `NewSecrets` that carries the ID of another activation than the prompt's
-- changes nothing, and one that carries the prompt's own is handed to the prompt.
pub new_secrets_stale :
    (s : ActivationSettings) (w : World) (p : ActivationPrompt) (i : ℕ)
    → w.prompt ≡ some p
    → s.prompt_activation_id ≡ format_activation_id i
    → new_secrets_locked s w ≡ (if i == p.activation_id then handle_new_secrets_locked p s w else w)
unfolding new_secrets_at new_secrets_locked
new_secrets_stale s w p i asked carried = elim (Bool-cases (i == p.activation_id)) [
  | inl same ↦ ground (
    arith,
    id_not_empty i,
    text_eq_iff (format_activation_id i) (format_activation_id p.activation_id),
  )
  | inr other ↦ ground (arith, id_not_empty i, differs i p.activation_id (ground arith))
]
