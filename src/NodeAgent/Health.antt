-- ===== src/NodeAgent/Health.antt =====
-- nodeapps/internal/nodeagent/health.go: validation and defaults of a probe.
mod Examples
use dc_net_lab.Prelude.{
  ℕ, suc, ◌+◌, ◌-◌, ◌*◌, ◌/◌, ◌^◌, ◌≤◌, ◌<◌, ◌≡◌, ◌≢◌, refl, sym, subst, ap, ◌∙◌, eq_iff, String,
  Bool, true, false, not, ◌&&◌, ◌||◌, Option, none, some, arith, ◌==◌, string_eq, ℤ, pos, negsuc,
  ltb_ℤ, ltb, eqb, if◌then◌else◌, Result, ok, err, ◌>>=◌, Bool-cases, inl, inr, ◌⊎◌,
}
use dc_net_lab.NodeAgent.{HealthCheck, check_process, check_tcp, check_http, second}

pub data Error : Type 0 where
  port_out_of_range : ℤ → Error
  invalid_type : String → Error

-- n > 0
abbrev pub is_positive : ℤ → Bool
is_positive n = ltb_ℤ (pos 0) n

-- Go's n / 2, which cuts towards 0
abbrev half : ℤ → ℤ
half (pos n) = pos (n / 2)
half (negsuc n) = if eqb ((n + 1) / 2) 0 then pos 0 else negsuc ((n + 1) / 2 - 1)

abbrev pub no_check : HealthCheck
no_check = record {
  type = "";
  port = pos 0;
  path = "";
  interval = pos 0;
  timeout = pos 0;
  failure_threshold = pos 0;
}

default_path : HealthCheck → String
default_path h = if h.type == check_http && h.path == "" then "/" else h.path

default_interval : HealthCheck → ℤ
default_interval h =
    let i = if is_positive h.interval then h.interval else pos (10 * second) in
    if ltb_ℤ i (pos second) then pos second else i

default_timeout : HealthCheck → ℤ → ℤ
default_timeout h interval =
    let t = if is_positive h.timeout then h.timeout else pos second in
    if ltb_ℤ t interval then t else half interval

default_threshold : HealthCheck → ℤ
default_threshold h = if is_positive h.failure_threshold then h.failure_threshold else pos 3

fill : HealthCheck → HealthCheck
unfolding default_path default_interval default_timeout default_threshold
fill h = record h {
  path = default_path h;
  interval = default_interval h;
  timeout = default_timeout h (default_interval h);
  failure_threshold = default_threshold h;
}

port_in_range : ℤ → Bool
port_in_range p = is_positive p && not (ltb_ℤ (pos 65535) p)

pub normalise : HealthCheck → Result Error HealthCheck
unfolding port_in_range
normalise h =
    if h.type == ""
    then ok no_check
    else if h.type == check_process
    then ok (fill h)
    else if h.type == check_tcp || h.type == check_http
    then (if port_in_range h.port then ok (fill h) else err (port_out_of_range h.port))
    else err (invalid_type h.type)

pub normalise_check : Option HealthCheck → Result Error (Option HealthCheck)
normalise_check none = ok none
normalise_check (some h) = do
  check ← normalise h
  ok (if check.type == "" then none else some check)

-- What the monitors rely on: the interval is a second or more, at most one probe is in flight, and
-- the threshold is positive.
pub record IsUsable (h : HealthCheck) : Type 0 where
  pub known :
      (h.type ≡ check_process)
      ⊎ (((h.type ≡ check_tcp) ⊎ (h.type ≡ check_http))
          × (ltb_ℤ (pos 0) h.port ≡ true)
          × (ltb_ℤ (pos 65535) h.port ≡ false))
  pub interval-ge : ltb_ℤ h.interval (pos second) ≡ false
  pub timeout_pos : ltb_ℤ (pos 0) h.timeout ≡ true
  pub timeout-lt : ltb_ℤ h.timeout h.interval ≡ true
  pub threshold_pos : ltb_ℤ (pos 0) h.failure_threshold ≡ true

fill-interval : (h : HealthCheck) → ltb_ℤ (fill h).interval (pos second) ≡ false
unfolding fill
fill-interval h = ground arith

half-lt :
    (i : ℤ)
    → ltb_ℤ i (pos second) ≡ false
    → (ltb_ℤ (half i) i ≡ true) × (ltb_ℤ (pos 0) (half i) ≡ true)
half-lt i h = ground arith

fill-timeout :
    (h : HealthCheck)
    → (ltb_ℤ (fill h).timeout (fill h).interval ≡ true) × (ltb_ℤ (pos 0) (fill h).timeout ≡ true)
fill-timeout h =
    let i = fill-interval h in unfold fill in ground (arith, half-lt (default_interval h) i)

fill-threshold : (h : HealthCheck) → ltb_ℤ (pos 0) (fill h).failure_threshold ≡ true
unfolding fill
fill-threshold h = ground arith

-- the checks that pass the switch
abbrev allowed : HealthCheck → Bool
allowed h =
    h.type == check_process
    || ((h.type == check_tcp || h.type == check_http) && port_in_range h.port)

normalise-cases :
    (h h' : HealthCheck)
    → normalise h ≡ ok h'
    → ((h.type == "") ≡ true) × (h' ≡ no_check)
      ⊎ ((h.type == "") ≡ false) × (allowed h ≡ true) × (h' ≡ fill h)
unfolding normalise
normalise-cases h h' done = ground arith

normalise-fill :
    (h : HealthCheck) → (h.type == "") ≡ false → allowed h ≡ true → normalise h ≡ ok (fill h)
unfolding normalise
normalise-fill h n a = ground arith

fill-IsUsable : (h : HealthCheck) → allowed h ≡ true → IsUsable (fill h)
unfolding port_in_range
fill-IsUsable h a =
    let t = fill-timeout h in
    record {
      known =
          unfold fill in
          ground
            (arith, eq_iff h.type check_process, eq_iff h.type check_tcp, eq_iff h.type check_http);
      interval-ge = fill-interval h;
      timeout_pos = t.1;
      timeout-lt = t.0;
      threshold_pos = fill-threshold h;
    }

module _ (h : HealthCheck) where
  path-fill : default_path (fill h) ≡ (fill h).path
  unfolding fill
  path-fill = ground arith

  interval-fill : default_interval (fill h) ≡ (fill h).interval
  interval-fill = let i = fill-interval h in unfold default_interval in ground arith

  timeout-fill : default_timeout (fill h) (fill h).interval ≡ (fill h).timeout
  timeout-fill = let t = fill-timeout h in unfold default_timeout in ground arith

  threshold-fill : default_threshold (fill h) ≡ (fill h).failure_threshold
  threshold-fill = let t = fill-threshold h in unfold default_threshold in ground arith

-- a check whose fields the defaults keep
fill_keeps :
    (h : HealthCheck)
    → default_path h ≡ h.path
    → default_interval h ≡ h.interval
    → default_timeout h h.interval ≡ h.timeout
    → default_threshold h ≡ h.failure_threshold
    → fill h ≡ h
fill_keeps h p i t f = unfold fill in ground arith

fill-fill : (h : HealthCheck) → fill (fill h) ≡ fill h
fill-fill h =
    fill_keeps (fill h) (path-fill h) (interval-fill h) (timeout-fill h) (threshold-fill h)

type-fill : (h : HealthCheck) → ((fill h).type ≡ h.type) × ((fill h).port ≡ h.port)
unfolding fill
type-fill h = (refl, refl)

-- A check that `normalise` accepts and that is a check at all is usable: its type is known, its port is in range where
-- the probe dials it, its interval is at least a second, its timeout is positive and below the interval, and its
-- threshold is positive.
pub normalise-IsUsable : (h h' : HealthCheck) → h.type ≢ "" → normalise h ≡ ok h' → IsUsable h'
normalise-IsUsable h h' some_type done = elim (normalise-cases h h' done) [
  | inl (e, _) ↦ absurd (some_type ((eq_iff h.type "").0 e))
  | inr (_, a, e) ↦ subst IsUsable (sym e) (fill-IsUsable h a)
]

normalise-no_check : normalise no_check ≡ ok no_check
unfolding normalise
normalise-no_check = refl

-- Normalising again changes nothing.
pub normalise_idem : (h h' : HealthCheck) → normalise h ≡ ok h' → normalise h' ≡ ok h'
normalise_idem h h' done = elim (normalise-cases h h' done) [
  | inl (_, e) ↦ rw e normalise-no_check
  | inr (n, a, e) ↦ rw e (
      normalise-fill (fill h) (ap (λ t. t == "") (type-fill h).0 ∙ n)
        (ground (arith, type-fill h, a))
      ∙ ap ok (fill-fill h))
]
