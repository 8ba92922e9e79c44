-- ===== src/Grpc/Stable.antt =====
-- internal/netbird/daemonclient/grpc.go: options and addresses are normalized by `NewFactory`, by `dial`
-- and in error texts; doing it again changes nothing.
use network_manager_vpn_plug.Prelude.{
  ℕ, true, false, not, ◌&&◌, [], ◌∷◌, ◌++◌, ◌≡◌, refl, ap, ◌∙◌, arith, if◌then◌else◌, Text, codes,
  is_empty, All, some, Bool-cases, inl, inr, subst, Option-cases,
}
use network_manager_vpn_plug.Go.Strings.{
  cut_prefix, has_prefix, trim_cons, trim_func, trim_left_func, trim_prefix, trim_right_func,
  trim_space,
}
use network_manager_vpn_plug.Go.Trim.{trim_right-trim_right, trim_space-trim_space}
use network_manager_vpn_plug.Go.Unicode.{is_space}
use network_manager_vpn_plug.Grpc.Configure.{
  default_address, Options, normalize_address, normalize_options, normalize_trimmed, unix_path,
}
use network_manager_vpn_plug.Grpc.Dial.{
  Deadline, Network, dial, dial_connection, is_positive, with_timeout,
}

normalize_options_idem :
    (o : Options) → normalize_options (normalize_options o) ≡ normalize_options o
unfolding normalize_options
normalize_options_idem o = ground arith

-- A text that ends in no space.
abbrev IsTrimmed : Text → Type 0
IsTrimmed s = trim_right_func is_space s ≡ s

IsTrimmed-cons : (c : ℕ) (s : Text) → is_space c ≡ false → IsTrimmed s → IsTrimmed (c ∷ s)
unfolding trim_right_func
IsTrimmed-cons c [] kept h = rw kept refl
IsTrimmed-cons c (d ∷ s) kept h = rw h refl

trim_cons_tail : (c : ℕ) (r s : Text) → trim_cons is_space c r ≡ c ∷ s → r ≡ s
trim_cons_tail c [] s h = ground arith
trim_cons_tail c (d ∷ r) s h = ground arith

IsTrimmed-tail : (c : ℕ) (s : Text) → IsTrimmed (c ∷ s) → IsTrimmed s
unfolding trim_right_func
IsTrimmed-tail c s h = trim_cons_tail c (trim_right_func is_space s) s h

IsTrimmed-append : (p s : Text) → All (λ c. is_space c ≡ false) p → IsTrimmed s → IsTrimmed (p ++ s)
IsTrimmed-append [] s k h = h
IsTrimmed-append (c ∷ p) s (kc, kp) h = IsTrimmed-cons c (p ++ s) kc (IsTrimmed-append p s kp h)

cut_prefix-IsTrimmed : (s p : Text) {r : Text} → cut_prefix s p ≡ some r → IsTrimmed s → IsTrimmed r
unfolding cut_prefix
cut_prefix-IsTrimmed s [] {r} h t = let e : s ≡ r = cc in subst IsTrimmed e t
cut_prefix-IsTrimmed [] (d ∷ p) h t = cc
cut_prefix-IsTrimmed (c ∷ s) (d ∷ p) h t =
    cut_prefix-IsTrimmed s p (ground arith) (IsTrimmed-tail c s t)

trim_prefix-IsTrimmed : (s p : Text) → IsTrimmed s → IsTrimmed (trim_prefix s p)
unfolding trim_prefix
trim_prefix-IsTrimmed s p t = elim (Option-cases (cut_prefix s p)) [
  | inl e ↦ rw (e, trim_prefix) t
  | inr (r, e) ↦ rw (e, trim_prefix) (cut_prefix-IsTrimmed s p e t)
]

abbrev IsStable : Text → Type 0
IsStable r = (trim_space r ≡ r) × (normalize_trimmed r ≡ r)

abbrev KeptRune : ℕ → Type 0
KeptRune c = is_space c ≡ false

unix_kept : All KeptRune (codes "unix://")
unfolding is_space
unix_kept = (refl, (refl, (refl, (refl, (refl, (refl, (refl, tt)))))))

unix-IsStable : (x : Text) → IsTrimmed x → IsStable (codes "unix://" ++ x)
unfolding normalize_trimmed has_prefix trim_space trim_func trim_left_func is_space
unix-IsStable x h = (IsTrimmed-append (codes "unix://") x unix_kept h, refl)

unix_path_double :
    (path : Text)
    → has_prefix path (codes "//") ≡ true
    → IsTrimmed path
    → IsStable (codes "unix:" ++ path)
unfolding normalize_trimmed has_prefix trim_space trim_func trim_left_func is_space
unix_path_double path e h =
    (IsTrimmed-append (codes "unix:") path (refl, (refl, (refl, (refl, (refl, tt))))) h, rw e refl)

unix_path-IsStable : (path : Text) → IsTrimmed path → IsStable (unix_path path)
unfolding unix_path
unix_path-IsStable path h = elim (Bool-cases (has_prefix path (codes "//"))) [
  | inl e ↦ rw (e, unix_path) (unix_path_double path e h)
  | inr e ↦
      rw (e, unix_path)
        (elim (Bool-cases (has_prefix path (codes "/"))) [
          | inl k ↦ rw k (unix-IsStable path h)
          | inr k ↦
              rw k
                (unix-IsStable (b'/' ∷ path) (IsTrimmed-cons b'/' path (unfold is_space in refl) h))
        ])
]

default-IsStable : IsStable default_address
unfolding is_space trim_right_func
default-IsStable = unix-IsStable (codes "/var/run/netbird.sock") refl

normalize_trimmed-IsStable :
    (t : Text) → trim_space t ≡ t → IsTrimmed t → IsStable (normalize_trimmed t)
unfolding normalize_trimmed
normalize_trimmed-IsStable t h k = elim (Bool-cases (is_empty t)) [
  | inl e ↦ rw (e, normalize_trimmed) default-IsStable
  | inr e ↦ elim (Bool-cases (has_prefix t (codes "/"))) [
    | inl f ↦ rw (e, f, normalize_trimmed) (unix-IsStable t k)
    | inr f ↦
        elim (Bool-cases (has_prefix t (codes "unix:") && not (has_prefix t (codes "unix://")))) [
          | inl g ↦
              rw (e, f, g, normalize_trimmed)
                (unix_path-IsStable (trim_prefix t (codes "unix:"))
                  (trim_prefix-IsTrimmed t (codes "unix:") k))
          | inr g ↦ rw (e, f, g, normalize_trimmed) (h, rw (e, f, g, normalize_trimmed) refl)
        ]
  ]
]

trim_space-IsTrimmed : (s : Text) → IsTrimmed (trim_space s)
unfolding trim_space trim_func
trim_space-IsTrimmed s = trim_right-trim_right is_space (trim_left_func is_space s)

address-IsStable : (a : Text) → IsStable (normalize_address a)
unfolding normalize_address
address-IsStable a =
    normalize_trimmed-IsStable (trim_space a) (trim_space-trim_space a) (trim_space-IsTrimmed a)

-- Normalizing an address or the options again changes nothing, so `dial` does the same on the options
-- of the factory, which are normalized, as on those that the factory was made with.
pub normalize_again :
    (network : Network) (fuel : ℕ) (deadline : Deadline) (o : Options) (w : network.World)
    → (normalize_address (normalize_address o.address) ≡ normalize_address o.address)
      × (normalize_options (normalize_options o) ≡ normalize_options o)
      × (dial network fuel deadline (normalize_options o) w ≡ dial network fuel deadline o w)
unfolding normalize_address dial
normalize_again network fuel deadline o w = (
  ap normalize_trimmed (address-IsStable o.address).0 ∙ (address-IsStable o.address).1,
  normalize_options_idem o,
  ap
      (λ (p : Options).
        dial_connection network fuel
          (if is_positive p.dial_timeout then with_timeout deadline p.dial_timeout else deadline) p
          (normalize_address p.address) (network.new_connection (normalize_address p.address) w))
      (normalize_options_idem o),
)
