-- ===== src/Config/Brokers.antt =====
-- The address of the broker.
use ha_lua.Base.{
  ℤ, pos, negsuc, ◌≡◌, ◌⊎◌, refl, ap, ◌∙◌, subst, All, append-nil, append_assoc, Bool, true, not,
  ◌||◌, ◌==◌, [], ◌∷◌, ◌++◌, Option, none, some, Text, is_empty, has_prefix, has_byte, codes, arith,
  Bool-cases, inl, inr, if-elim, if◌then◌else◌, Result, ok, err,
}
use ha_lua.Config.{
  Config, BrokerConfig, IsTrimSpace, visible, Error, bad_reply, contains_text, or_default, is_zero,
  with_scheme, normalize_broker, defaults, as_addon, load, Service, Reply, status, no_reply,
  no_broker, service_config, discovered, discover, found_or, chosen,
}

-- Empty, or with a scheme.
pub IsAddress : Text → Type 0
IsAddress s = (is_empty s ≡ true) ⊎ (contains_text s (codes "://") ≡ true)

module _ (trim_space : Text → Text) where
  scheme-IsAddress : (s : Text) → IsAddress (with_scheme trim_space s)
  unfolding IsAddress with_scheme
  scheme-IsAddress s =
      if-elim (λ a. (is_empty a ≡ true) ⊎ (contains_text a (codes "://") ≡ true))
        (is_empty s || contains_text s (codes "://")) _ _
        (λ given. elim (Bool-cases (is_empty s)) [
          | inl empty ↦ inl empty
          | inr more ↦ inr (ground (arith, given, more))
        ])
        (λ bare. inr (unfold contains_text has_prefix in refl))

  scheme_kept : (s : Text) → IsAddress s → with_scheme trim_space s ≡ s
  unfolding IsAddress with_scheme
  scheme_kept s (inl empty) = ground (arith, empty)
  scheme_kept s (inr has) = ground (arith, has)

  trim_space-append :
      (s w : Text)
      → IsTrimSpace trim_space
      → All (λ c. visible c ≡ true) w
      → trim_space s ≡ s
      → trim_space (s ++ w) ≡ s ++ w
  trim_space-append s [] law seen e = rw (append-nil s) e
  trim_space-append s (c ∷ w) law seen e =
      rw (← append_assoc s (c ∷ []) w)
        (trim_space-append (s ++ c ∷ []) w law seen.1 (law.back s c seen.0 e))

  with-front :
      (s : Text)
      → IsTrimSpace trim_space
      → trim_space s ≡ s
      → trim_space (codes "tcp://" ++ s) ≡ codes "tcp://" ++ s
  with-front s law e = law.front 116 _ refl (
      law.front 99 _ refl
        (law.front 112 _ refl (law.front 58 _ refl (law.front 47 _ refl (law.front 47 s refl e)))))

  addressed :
      (s : Text)
      → IsTrimSpace trim_space
      → trim_space s ≡ s
      → trim_space (with_scheme trim_space s) ≡ with_scheme trim_space s
  unfolding with_scheme
  addressed s law e =
      if-elim (λ a. trim_space a ≡ a) (is_empty s || contains_text s (codes "://")) _ _ (λ given. e)
        (λ bare. with-front _ law (
          if-elim (λ a. trim_space a ≡ a) (not (has_byte 58 s)) _ _
            (λ no_port.
              trim_space-append s (codes ":1883") law (refl, (refl, (refl, (refl, (refl, tt))))) e)
            (λ ported. e)))

  normalize_again :
      (s : Text)
      → IsTrimSpace trim_space
      → normalize_broker trim_space (normalize_broker trim_space s) ≡ normalize_broker trim_space s
  unfolding normalize_broker
  normalize_again s law =
      let t = trim_space s in
      ap (with_scheme trim_space) (addressed t law (law.again s))
      ∙ scheme_kept (with_scheme trim_space t) (scheme-IsAddress t)

contains-after : (s t sub : Text) → contains_text t sub ≡ true → contains_text (s ++ t) sub ≡ true
unfolding contains_text
contains-after [] t sub h = h
contains-after (c ∷ s) t sub h = ground (arith, contains-after s t sub h)

slashes_inside :
    (scheme host rest : Text)
    → contains_text (((scheme ++ codes "://") ++ host) ++ rest) (codes "://") ≡ true
slashes_inside scheme host rest =
    let slashes : contains_text (codes "://" ++ (host ++ rest)) (codes "://") ≡ true =
      unfold contains_text has_prefix in refl in
    let moved : ((scheme ++ codes "://") ++ host) ++ rest
        ≡ scheme ++ (codes "://" ++ (host ++ rest)) =
      append_assoc (scheme ++ codes "://") host rest
      ∙ append_assoc scheme (codes "://") (host ++ rest) in
    ap (λ a. contains_text a (codes "://")) moved ∙ contains-after scheme _ (codes "://") slashes

service-IsAddress : (decimal : ℤ → Text) (s : Service) → IsAddress (service_config decimal s).broker
unfolding IsAddress service_config no_broker
service-IsAddress decimal s =
    let rest : Text = 58 ∷ decimal (if is_zero s.port then pos 1883 else s.port) in
    let scheme : Text = if s.ssl then codes "ssl" else codes "tcp" in
    if-elim
      (λ (b : BrokerConfig).
        (is_empty b.broker ≡ true) ⊎ (contains_text b.broker (codes "://") ≡ true))
      (is_empty s.host) no_broker
      (record {
        broker = ((scheme ++ codes "://") ++ s.host) ++ rest;
        username = s.username;
        password = s.password;
        client_id = [];
      })
      (λ absent. inl refl) (λ present. inr (slashes_inside scheme s.host rest))

found-IsAddress :
    (own : BrokerConfig) (r : Result Error BrokerConfig)
    → IsAddress own.broker
    → ((b : BrokerConfig) → r ≡ ok b → IsAddress b.broker)
    → IsAddress (found_or own r).broker
unfolding found_or
found-IsAddress own (err e) h k = h
found-IsAddress own (ok found) h k =
    if-elim (λ (b : BrokerConfig). IsAddress b.broker) (not (is_empty found.broker)) found own
      (λ given. k found refl) (λ missing. h)

abbrev Sound : Result Error BrokerConfig → Type 0
Sound (err e) = Unit
Sound (ok b) = IsAddress b.broker

none-IsAddress : IsAddress no_broker.broker
unfolding IsAddress no_broker
none-IsAddress = inl refl

answer-Sound :
    (body : Option Service) (decimal : ℤ → Text)
    → Sound (elim body [ none ↦ err bad_reply | some s ↦ ok (service_config decimal s) ])
answer-Sound none decimal = tt
answer-Sound (some s) decimal = service-IsAddress decimal s

discovered-Sound : (decimal : ℤ → Text) (reply : Reply) → Sound (discovered decimal reply)
unfolding discovered
discovered-Sound decimal no_reply = tt
discovered-Sound decimal (status code body) =
    if-elim Sound (code == 400 || code == 404) _ _ (λ absent. none-IsAddress)
      (λ other.
        if-elim Sound (not (code == 200)) _ _ (λ bad. tt) (λ fine. answer-Sound body decimal))

discover-Sound :
    (decimal : ℤ → Text) (token : Text) (reply : Reply) → Sound (discover decimal token reply)
unfolding discover
discover-Sound decimal token reply =
    if-elim Sound (is_empty token) _ _ (λ bare. tt) (λ given. discovered-Sound decimal reply)

ok-Sound :
    (r : Result Error BrokerConfig) (b : BrokerConfig) → Sound r → r ≡ ok b → IsAddress b.broker
ok-Sound r b h e = subst Sound e h

default_again : (s d : Text) → or_default (or_default s d) d ≡ or_default s d
unfolding or_default
default_again [] d = ground arith
default_again (c ∷ s) d = refl

days_again :
    (d : ℤ)
    → let filled = (if is_zero d then pos 2 else d) in
      (if is_zero filled then pos 2 else filled) ≡ filled
unfolding is_zero
days_again (pos n) = ground arith
days_again (negsuc n) = refl

-- A configuration that the defaults leave alone, and whose client gets no broker or an address.
abbrev pub IsReady : (Text → Text) → (ℤ → Text) → Text → Reply → Config → Type 0
IsReady trim_space decimal token reply c =
    (defaults trim_space c ≡ c) × IsAddress (chosen decimal token reply c).broker

chosen-IsAddress :
    (decimal : ℤ → Text) (token : Text) (reply : Reply) (c : Config)
    → IsAddress c.mqtt.broker
    → IsAddress (chosen decimal token reply c).broker
unfolding chosen
chosen-IsAddress decimal token reply c named =
    if-elim (λ (b : BrokerConfig). IsAddress b.broker) (is_empty c.mqtt.broker)
      (found_or c.mqtt (discover decimal token reply)) c.mqtt
      (λ absent.
        found-IsAddress c.mqtt (discover decimal token reply) named
          (λ b e. ok-Sound (discover decimal token reply) b (discover-Sound decimal token reply) e))
      (λ given. named)

module _ (trim_space : Text → Text) (law : IsTrimSpace trim_space) where
  defaults_again :
      (c : Config) → defaults trim_space (defaults trim_space c) ≡ defaults trim_space c
  unfolding defaults
  defaults_again c =
      rw
        (
          default_again c.scripts_dir (codes "/config/ha-lua/scripts"),
          default_again c.database (codes "/data/ha-lua.db"),
          default_again c.log_level (codes "info"),
          default_again c.purge_every (codes "1h"),
          days_again c.retention_days,
          normalize_again trim_space c.mqtt.broker law,
        )
        refl

  defaults-IsAddress : (c : Config) → IsAddress (defaults trim_space c).mqtt.broker
  unfolding defaults normalize_broker
  defaults-IsAddress c = scheme-IsAddress trim_space (trim_space c.mqtt.broker)

  addon_again :
      (c : Config) (token : Text)
      → defaults trim_space (as_addon token (defaults trim_space c))
        ≡ as_addon token (defaults trim_space c)
  unfolding as_addon defaults
  addon_again c token = ap (as_addon token) (defaults_again c)

  -- Whatever the file says, the configuration that load returns is one that the defaults leave alone, and the client is built with no
  -- broker or with one whose address has a scheme, whether it was configured or is discovered, and whatever the Supervisor answers.
  pub load-IsReady :
      (decimal : ℤ → Text) (reply : Reply) (decoded : Option Config) (addon : Bool) (token : Text)
      (c : Config)
      → load trim_space decoded addon token ≡ some c
      → IsReady trim_space decimal token reply c
  unfolding load
  load-IsReady decimal reply none addon token c e = absurd (ground (arith, e))
  load-IsReady decimal reply (some d) addon token c e =
      let filled = defaults trim_space d in
      subst (IsReady trim_space decimal token reply) (cc e) (
        if-elim (IsReady trim_space decimal token reply) addon (as_addon token filled) filled
          (λ inside. (
            addon_again d token,
            chosen-IsAddress decimal token reply (as_addon token filled)
                (unfold as_addon in defaults-IsAddress d),
          ))
          (λ outside.
            (defaults_again d, chosen-IsAddress decimal token reply filled (defaults-IsAddress d))))
