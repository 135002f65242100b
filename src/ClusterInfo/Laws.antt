-- ===== src/ClusterInfo/Laws.antt =====
-- The endpoint that a kubeconfig is made for, where the ConfigMap gives none.
use mathlib.Core.Option.{some-injective}
use operating_system_manager.Prelude.{
  String, ◌<>◌, Bool, true, false, Bool-cases, inl, inr, ◌⊎◌, Option, none, some, List, [], ◌∷◌,
  ◌≡◌, ◌≢◌, refl, sym, ap, eq_iff, if◌then◌else◌,
}
use operating_system_manager.Prelude.Int.{ℤ, sprint}
use operating_system_manager.Prelude.Result.{ok, ok-injective}
use operating_system_manager.Machine.{Kubeconfig}
use operating_system_manager.ClusterInfo.{
  EndpointPort, Endpoint, EndpointSlice, Source, is_https, or_else, get_secure_port, is_ready,
  first_ip, ready_ip, url_of, slices_url, config_at, config_of_url, config_of_slices,
}

-- A place in a list where an element stands.
pub data In {A : Type 0} (a : A) : List A → Type 0 where
  here : {l : List A} → In a (a ∷ l)
  there : {b : A} {l : List A} → In a l → In a (b ∷ l)

-- One of two, where a test and a value come together.
or_else-some :
    {A : Type 0} (o p : Option A) {a : A}
    → or_else o p ≡ some a
    → (o ≡ some a) ⊎ ((o ≡ none) × (p ≡ some a))
unfolding or_else
or_else-some none p h = inr (refl, h)
or_else-some (some b) p h = inl h

-- A named port with a number.
pub record IsSecure (p : EndpointPort) (n : ℤ) : Type 0 where
  pub named : p.name ≡ some "https"
  pub numbered : p.port ≡ some n

is_https-some : (o : Option String) → is_https o ≡ true → o ≡ some "https"
unfolding is_https
is_https-some none h = cc
is_https-some (some name) h = ap some ((eq_iff name "https").0 h)

get_secure_port-In :
    (ps : List EndpointPort) {n : ℤ}
    → get_secure_port ps ≡ some n
    → (p : EndpointPort) × In p ps × IsSecure p n
unfolding get_secure_port
get_secure_port-In [] h = cc
get_secure_port-In (p ∷ ps) h = elim (Bool-cases (is_https p.name)) [
  | inl https ↦ elim (or_else-some p.port (get_secure_port ps) (rw https at h)) [
    | inl this ↦ (p, here, record { named = is_https-some p.name https; numbered = this })
    | inr later ↦ let found = get_secure_port-In ps later.1 in (found.0, there found.1, found.2)
  ]
  | inr other ↦
      let found = get_secure_port-In ps (rw other at h) in (found.0, there found.1, found.2)
]

or_else-left : {A : Type 0} (o p : Option A) {a : A} → o ≡ some a → or_else o p ≢ none
unfolding or_else
or_else-left none p h = cc
or_else-left (some b) p h = λ e. cc

or_else-right : {A : Type 0} (o p : Option A) → p ≢ none → or_else o p ≢ none
unfolding or_else
or_else-right none p h = h
or_else-right (some b) p h = λ e. cc

if_else-right :
    {A : Type 0} (b : Bool) (o p : Option A) → p ≢ none → (if b then or_else o p else p) ≢ none
if_else-right true o p h = or_else-right o p h
if_else-right false o p h = h

get_secure_port-found :
    (ps : List EndpointPort) {p : EndpointPort} {n : ℤ}
    → In p ps
    → IsSecure p n
    → get_secure_port ps ≢ none
unfolding get_secure_port is_https
get_secure_port-found [] i secure = elim i [ ]
get_secure_port-found (p ∷ ps) here secure =
    rw secure.named (or_else-left p.port (get_secure_port ps) secure.numbered)
get_secure_port-found (p ∷ ps) (there i) secure =
    if_else-right (is_https p.name) p.port (get_secure_port ps) (get_secure_port-found ps i secure)

module _ {S : Type 0} (C : Source S) where
  -- An endpoint that is ready, whose first address is that of a machine.
  pub record IsReady (e : Endpoint) (ip : String) : Type 0 where
    pub ready : e.ready ≡ some true
    pub address : String
    pub others : List String
    pub addresses : e.addresses ≡ address ∷ others
    pub parsed : C.parse_ip address ≡ some ip

  is_ready-some : (o : Option Bool) → is_ready o ≡ true → o ≡ some true
  unfolding is_ready
  is_ready-some none h = cc
  is_ready-some (some b) h = ap some h

  first_ip-some :
      (addresses : List String) {ip : String}
      → first_ip C addresses ≡ some ip
      → (a : String) × (others : List String) × (addresses ≡ a ∷ others) × (C.parse_ip a ≡ some ip)
  unfolding first_ip
  first_ip-some [] h = cc
  first_ip-some (a ∷ others) h = (a, others, refl, h)

  ready_ip-In :
      (es : List Endpoint) {ip : String}
      → ready_ip C es ≡ some ip
      → (e : Endpoint) × In e es × IsReady e ip
  unfolding ready_ip
  ready_ip-In [] h = cc
  ready_ip-In (e ∷ es) h = elim (Bool-cases (is_ready e.ready)) [
    | inl up ↦ elim (or_else-some (first_ip C e.addresses) (ready_ip C es) (rw up at h)) [
      | inl this ↦
          let a = first_ip-some e.addresses this in
          (
            e,
            here,
            record {
              ready = is_ready-some e.ready up;
              address = a.0;
              others = a.1;
              addresses = a.2;
              parsed = a.3;
            },
          )
      | inr later ↦ let found = ready_ip-In es later.1 in (found.0, there found.1, found.2)
    ]
    | inr down ↦ let found = ready_ip-In es (rw down at h) in (found.0, there found.1, found.2)
  ]

  ready_ip-found :
      (es : List Endpoint) {e : Endpoint} {ip : String}
      → In e es
      → IsReady e ip
      → ready_ip C es ≢ none
  unfolding ready_ip is_ready first_ip
  ready_ip-found [] i up = elim i [ ]
  ready_ip-found (e ∷ es) here up =
      rw up.ready (rw up.addresses (or_else-left (C.parse_ip up.address) (ready_ip C es) up.parsed))
  ready_ip-found (e ∷ es) (there i) up =
      if_else-right (is_ready e.ready) (first_ip C e.addresses) (ready_ip C es)
        (ready_ip-found es i up)

  -- A slice has a secure port and a ready endpoint, which the URL is made of.
  pub record Serves (slice : EndpointSlice) (url : String) : Type 0 where
    pub port : EndpointPort
    pub number : ℤ
    pub in_ports : In port slice.ports
    pub secure : IsSecure port number
    pub endpoint : Endpoint
    pub ip : String
    pub in_endpoints : In endpoint slice.endpoints
    pub up : IsReady endpoint ip
    pub same : url ≡ "https://" <> C.join_host_port ip (sprint number)

  url_of-some :
      (o : Option ℤ) (p : Option String) {url : String}
      → url_of C o p ≡ some url
      → (n : ℤ) × (ip : String) × (o ≡ some n)
        × (p ≡ some ip)
        × (url ≡ "https://" <> C.join_host_port ip (sprint n))
  unfolding url_of
  url_of-some none p h = cc
  url_of-some (some n) none h = cc
  url_of-some (some n) (some ip) h = (n, ip, refl, refl, sym (some-injective _ _ h))

  slice-Serves :
      (slice : EndpointSlice) {url : String}
      → url_of C (get_secure_port slice.ports) (ready_ip C slice.endpoints) ≡ some url
      → Serves slice url
  slice-Serves slice h =
      let parts = url_of-some _ _ h in
      let port = get_secure_port-In slice.ports parts.2 in
      let endpoint = ready_ip-In slice.endpoints parts.3 in
      record {
        port = port.0;
        number = parts.0;
        in_ports = port.1;
        secure = port.2;
        endpoint = endpoint.0;
        ip = parts.1;
        in_endpoints = endpoint.1;
        up = endpoint.2;
        same = parts.4;
      }

  slices_url-In :
      (slices : List EndpointSlice) {url : String}
      → slices_url C slices ≡ some url
      → (slice : EndpointSlice) × In slice slices × Serves slice url
  unfolding slices_url
  slices_url-In [] h = cc
  slices_url-In (slice ∷ slices) h = elim (or_else-some _ (slices_url C slices) h) [
    | inl this ↦ (slice, here, slice-Serves slice this)
    | inr later ↦ let found = slices_url-In slices later.1 in (found.0, there found.1, found.2)
  ]

  url_of-found :
      (o : Option ℤ) (p : Option String)
      → o ≢ none
      → p ≢ none
      → (url : String) × (url_of C o p ≡ some url)
  unfolding url_of
  url_of-found none p h g = absurd (h refl)
  url_of-found (some n) none h g = absurd (g refl)
  url_of-found (some n) (some ip) h g = (_, refl)

  slices_url-found :
      (slices : List EndpointSlice) {slice : EndpointSlice} {url : String}
      → In slice slices
      → Serves slice url
      → slices_url C slices ≢ none
  unfolding slices_url
  slices_url-found [] i serves = elim i [ ]
  slices_url-found (slice ∷ slices) here serves =
      or_else-left _ (slices_url C slices)
        (url_of-found _ _ (get_secure_port-found slice.ports serves.in_ports serves.secure)
          (ready_ip-found slice.endpoints serves.in_endpoints serves.up)).1
  slices_url-found (slice ∷ slices) (there i) serves =
      or_else-right _ (slices_url C slices) (slices_url-found slices i serves)

  module _ (ca_cert : String) where
    config_of_url-some :
        (o : Option String) {config : Kubeconfig}
        → config_of_url C ca_cert o ≡ ok config
        → (url : String) × (o ≡ some url) × (config ≡ config_at C ca_cert url)
    unfolding config_of_url
    config_of_url-some none h = cc
    config_of_url-some (some url) h = (url, refl, sym (ok-injective _ _ h))

    config_of_url-found :
        (o : Option String)
        → o ≢ none
        → (config : Kubeconfig) × (config_of_url C ca_cert o ≡ ok config)
    unfolding config_of_url
    config_of_url-found none h = absurd (h refl)
    config_of_url-found (some url) h = (_, refl)

    config_of_slices-In :
        (slices : List EndpointSlice) {config : Kubeconfig}
        → config_of_slices C ca_cert slices ≡ ok config
        → (slice : EndpointSlice) × (url : String) × In slice slices
          × Serves slice url
          × (config ≡ config_at C ca_cert url)
    unfolding config_of_slices
    config_of_slices-In [] h = cc
    config_of_slices-In (slice ∷ slices) h =
        let made = config_of_url-some _ h in
        let found = slices_url-In (slice ∷ slices) made.1 in
        (found.0, made.0, found.1, found.2, made.2)

    config_of_slices-found :
        (slices : List EndpointSlice) {slice : EndpointSlice} {url : String}
        → In slice slices
        → Serves slice url
        → (config : Kubeconfig) × (config_of_slices C ca_cert slices ≡ ok config)
    unfolding config_of_slices
    config_of_slices-found [] i serves = elim i [ ]
    config_of_slices-found (slice ∷ slices) i serves =
        config_of_url-found _ (slices_url-found (slice ∷ slices) i serves)

    -- Where one of the listed endpoint slices serves, that is has a port named https with a number,
    -- and a ready endpoint whose first address parses, a kubeconfig is made; its server is such an
    -- address and port of one of the slices, and it has the CA certificate.
    pub config_of_slices-Serves :
        (slices : List EndpointSlice) (slice : EndpointSlice) (url : String)
        → In slice slices
        → Serves slice url
        → (config : Kubeconfig) × (config_of_slices C ca_cert slices ≡ ok config)
          × (chosen : EndpointSlice) × (server : String) × In chosen slices
          × Serves chosen server
          × (config ≡ config_at C ca_cert server)
    config_of_slices-Serves slices slice url i serves =
        let made = config_of_slices-found slices i serves in
        let from = config_of_slices-In slices made.1 in
        (made.0, made.1, from.0, from.1, from.2, from.3, from.4)
