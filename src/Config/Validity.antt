-- ===== src/Config/Validity.antt =====
-- What Validate accepts, and that Load gives it.
use kubeadapt_agent.Prelude.{
  ◌≡◌, ◌≢◌, ◌↔◌, ◌⊎◌, inl, inr, refl, Bool, true, false, not, ◌&&◌, none, String, String_eq, ◌==◌,
  arith, Bool-cases, ◌++◌, [], ◌∷◌,
}
use kubeadapt_agent.Prelude.Int.{ℤ, pos, ◌≤ℤ◌}
use kubeadapt_agent.Transport.Message.{Text, text, has_prefix}
use kubeadapt_agent.Config.Numbers.{atoi}
use kubeadapt_agent.Config.{
  Environment, Config, secs, env_or_fallback, env_or_fallback_or_default, parse_duration, parse_int,
  load, validate,
}

-- A variable that is unset, or holds neither a duration nor a number.
abbrev pub IsUnread : Environment → String → Type 0
IsUnread env key =
    (env.duration_of (text (env.getenv key)) ≡ none) × (atoi (text (env.getenv key)) ≡ none)

-- The documented limits.
pub record IsValid (c : Config) : Type 0 where
  pub keyed : c.api_key ≢ ""
  pub addressed : c.backend_url ≢ ""
  pub secure :
      (c.allow_insecure ≡ true) ⊎ ((rest : Text) × (text c.backend_url ≡ text "https://" ++ rest))
  pub snapshots_apart : secs 10 ≤ℤ c.snapshot_interval
  pub metrics_apart : secs 10 ≤ℤ c.metrics_interval
  pub some_compression : pos 1 ≤ℤ c.compression_level
  pub known_compression : c.compression_level ≤ℤ pos 4
  pub retries : pos 0 ≤ℤ c.max_retries
  pub port_from : pos 1 ≤ℤ c.health_port
  pub port_to : c.health_port ≤ℤ pos 65535

parse_int-unread :
    (env : Environment) (key : String) (d : ℤ)
    → atoi (text (env.getenv key)) ≡ none
    → parse_int env key d ≡ d
unfolding parse_int
parse_int-unread env key d h = rw h (ground arith)

parse_duration-unread :
    (env : Environment) (key : String) (d : ℤ) → IsUnread env key → parse_duration env key d ≡ d
unfolding parse_duration
parse_duration-unread env key d h = rw (h.0, h.1) (ground arith)

has_prefix-some : (p s : Text) → has_prefix p s ≡ true → (rest : Text) × (s ≡ p ++ rest)
has_prefix-some [] s h = (s, refl)
has_prefix-some (b ∷ p) [] h = ground arith
has_prefix-some (b ∷ p) (c ∷ s) h =
    let tail = has_prefix-some p s (ground arith) in (tail.0, ground (arith, tail.1))

has_prefix-append : (p rest : Text) → has_prefix p (p ++ rest) ≡ true
has_prefix-append [] rest = refl
has_prefix-append (b ∷ p) rest = ground (arith, has_prefix-append p rest)

not_equal : (x y : String) → x ≢ y → (x == y) ≡ false
not_equal x y h = elim (Bool-cases (x == y)) [
  | inl e ↦ absurd (h ((String_eq.equal_iff x y).0 e))
  | inr e ↦ e
]

secure_iff :
    (b : Bool) (p s : Text)
    → ((not b && not (has_prefix p s)) ≡ false) ↔ ((b ≡ true) ⊎ ((rest : Text) × (s ≡ p ++ rest)))
secure_iff true p s = ((λ h. inl refl), (λ h. refl))
secure_iff false p s = (
  (λ h. inr (has_prefix-some p s (ground arith))),
  (λ h. elim h [
    | inl e ↦ absurd (ground arith)
    | inr (rest, e) ↦ rw (e, has_prefix-append p rest) refl
  ]),
)

-- Validate accepts a configuration exactly if it keeps the documented limits.
pub validate-IsValid : (c : Config) → (validate c ≡ none) ↔ IsValid c
unfolding validate
validate-IsValid c =
    let url = secure_iff c.allow_insecure (text "https://") (text c.backend_url) in
    let key = String_eq.equal_iff c.api_key "" in
    let address = String_eq.equal_iff c.backend_url "" in
    (
      (λ h. record {
        keyed = λ e. absurd (ground (arith, key));
        addressed = λ e. absurd (ground (arith, address));
        secure = url.0 (ground arith);
        snapshots_apart = ground arith;
        metrics_apart = ground arith;
        some_compression = ground arith;
        known_compression = ground arith;
        retries = ground arith;
        port_from = ground arith;
        port_to = ground arith;
      }),
      (λ v.
          rw
            (not_equal c.api_key "" v.keyed, not_equal c.backend_url "" v.addressed, url.1 v.secure)
            (ground arith)),
    )

-- If one of the two keys is set and neither of the addresses, what Load returns passes Validate,
-- whatever the rest of the environment, as long as the two intervals hold neither a duration nor a
-- number, and the compression level, the number of retries and the port hold no number, as they do
-- if they are unset: these read as their defaults.
pub validate-load :
    (env : Environment)
    → (env_or_fallback env "KUBEADAPT_API_KEY" "KUBEADAPT_AGENT_TOKEN") ≢ ""
    → env.getenv "KUBEADAPT_BACKEND_URL" ≡ ""
    → env.getenv "KUBEADAPT_BACKEND_API_ENDPOINT" ≡ ""
    → IsUnread env "KUBEADAPT_SNAPSHOT_INTERVAL"
    → IsUnread env "KUBEADAPT_METRICS_INTERVAL"
    → atoi (text (env.getenv "KUBEADAPT_COMPRESSION_LEVEL")) ≡ none
    → atoi (text (env.getenv "KUBEADAPT_MAX_RETRIES")) ≡ none
    → atoi (text (env.getenv "KUBEADAPT_HEALTH_PORT")) ≡ none
    → validate (load env) ≡ none
unfolding load env_or_fallback_or_default
validate-load env keyed url endpoint snapshots metrics level retries port =
    let address : env_or_fallback_or_default env "KUBEADAPT_BACKEND_URL"
          "KUBEADAPT_BACKEND_API_ENDPOINT" "https://agent.kubeadapt.io"
        ≡ "https://agent.kubeadapt.io" =
      rw (url, endpoint) refl in
    (validate-IsValid (load env)).1 (record {
      keyed = keyed;
      addressed = rw address (λ e.
          let t : false ≡ true = (String_eq.equal_iff "https://agent.kubeadapt.io" "").1 e in cc);
      secure = inr (text "agent.kubeadapt.io", rw address refl);
      snapshots_apart =
          rw (parse_duration-unread env "KUBEADAPT_SNAPSHOT_INTERVAL" (secs 60) snapshots)
            (omega arith);
      metrics_apart =
          rw (parse_duration-unread env "KUBEADAPT_METRICS_INTERVAL" (secs 60) metrics)
            (omega arith);
      some_compression =
          rw (parse_int-unread env "KUBEADAPT_COMPRESSION_LEVEL" (pos 3) level) (omega arith);
      known_compression =
          rw (parse_int-unread env "KUBEADAPT_COMPRESSION_LEVEL" (pos 3) level) (omega arith);
      retries = rw (parse_int-unread env "KUBEADAPT_MAX_RETRIES" (pos 5) retries) (omega arith);
      port_from = rw (parse_int-unread env "KUBEADAPT_HEALTH_PORT" (pos 8080) port) (omega arith);
      port_to = rw (parse_int-unread env "KUBEADAPT_HEALTH_PORT" (pos 8080) port) (omega arith);
    })
