-- ===== src/Config/Listen.antt =====
-- The address of src/keycard/config.py: the `host` and `port` of `listen`, and how `keycard up`
-- (src/keycard/cli.py) overrides them.
use keycard.Prelude.{
  ℕ, suc, ◌<◌, false, ◌≡◌, refl, Option, none, some, [], ◌∷◌, ◌++◌, arith, ℤ, pos, negsuc, Text,
  Result, ok, err, value_error, All, All-weaken, ◌==◌, if◌then◌else◌, ◌>>=◌,
}
use keycard.Prelude.Numbers.{str_to_int}
use keycard.Prelude.Decimals.{
  show_int, magnitude, pow10, IsDigit, decimal-AllDigits, str_to_int-show_int,
}

-- `rsplit(c, 1)`: what stands before the last `c` and behind it, where there is one.
unfoldable pub last_cut : ℕ → Text → Option (Text × Text)
last_cut c [] = none
last_cut c (d ∷ ds) = elim (last_cut c ds) [
  | some (front, back) ↦ some (d ∷ front, back)
  | none ↦ if d == c then some ([], ds) else none
]

-- `host`
unfoldable pub host : Text → Text
unfolding last_cut
host listen = elim (last_cut b':' listen) [ none ↦ listen | some (front, back) ↦ front ]

-- `port`: `none` is a `ValueError`.
unfoldable pub port : Text → Option ℤ
unfolding last_cut
port listen = str_to_int (elim (last_cut b':' listen) [ none ↦ listen | some (front, back) ↦ back ])

-- `if host is not None` of `up`
unfoldable pub override_host : Option Text → Text → Result Text
unfolding port
override_host none listen = ok listen
override_host (some h) listen = elim (port listen) [
  | none ↦ err value_error
  | some p ↦ ok (h ++ b':' ∷ show_int p)
]

-- `if port is not None` of `up`
unfoldable pub override_port : Option ℤ → Text → Text
unfolding host
override_port none listen = listen
override_port (some p) listen = host listen ++ b':' ∷ show_int p

-- The two overrides of `up`, in its order.
unfoldable pub override_listen : Option Text → Option ℤ → Text → Result Text
unfolding override_host override_port
override_listen h p listen = do listen' ← override_host h listen; ok (override_port p listen')

last_cut-none : (c : ℕ) (l : Text) → All (λ d. (d == c) ≡ false) l → last_cut c l ≡ none
unfolding last_cut
last_cut-none c [] h = refl
last_cut-none c (d ∷ l) h = ground (arith, last_cut-none c l h.1)

last_cut-append :
    (c : ℕ) (front back : Text)
    → All (λ d. (d == c) ≡ false) back
    → last_cut c (front ++ c ∷ back) ≡ some (front, back)
unfolding last_cut
last_cut-append c [] back h = ground (arith, last_cut-none c back h)
last_cut-append c (d ∷ front) back h = ground (arith, last_cut-append c front back h)

show_int-HasNoColon : (z : ℤ) → All (λ d. (d == b':') ≡ false) (show_int z)
unfolding show_int
show_int-HasNoColon (pos n) = All-weaken IsDigit _ _ (λ c h. ground arith) (decimal-AllDigits n)
show_int-HasNoColon (negsuc n) =
    (refl, All-weaken IsDigit _ _ (λ c h. ground arith) (decimal-AllDigits (suc n)))

host-address : (h : Text) (p : ℤ) → host (h ++ b':' ∷ show_int p) ≡ h
unfolding host
host-address h p = rw (last_cut-append b':' h (show_int p) (show_int-HasNoColon p), host) refl

port-address : (h : Text) (p : ℤ) → magnitude p < pow10 19 → port (h ++ b':' ∷ show_int p) ≡ some p
unfolding port
port-address h p small =
    rw (last_cut-append b':' h (show_int p) (show_int-HasNoColon p)) (str_to_int-show_int p small)

abbrev pub or_given {ℓ} : {A : Type ℓ} → Option A → A → A
or_given none a = a
or_given (some b) a = b

-- Where the configured address has a port, the overrides of `keycard up` succeed, and the server
-- listens on the host and the port that were given, and on the configured ones for those that
-- were not, whatever characters the host has.
pub override_listen-gives :
    (h : Option Text) (q : Option ℤ) (listen : Text) (p : ℤ)
    → port listen ≡ some p
    → magnitude p < pow10 19
    → magnitude (or_given q p) < pow10 19
    → (l : Text) × (override_listen h q listen ≡ ok l)
      × (host l ≡ or_given h (host listen))
      × (port l ≡ some (or_given q p))
unfolding override_listen
override_listen-gives none none listen p e s t = (listen, refl, refl, e)
override_listen-gives none (some q) listen p e s t =
    (_, refl, host-address (host listen) q, port-address (host listen) q t)
override_listen-gives (some h) none listen p e s t =
    (h ++ b':' ∷ show_int p, rw (e, override_host) refl, host-address h p, port-address h p s)
override_listen-gives (some h) (some q) listen p e s t = (
  h ++ b':' ∷ show_int q,
  rw (e, override_host, override_port) (rw (host-address h p) refl),
  host-address h q,
  port-address h q t,
)
