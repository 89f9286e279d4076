-- ===== src/Routing/Ready.antt =====
-- The constructor of the registry: it builds every backend that the configuration can lead to.
use keycard.Prelude.{
  ℕ, String, true, false, ◌||◌, ◌≡◌, false≢true, inl, inr, refl, ◌∙◌, some, List, [], ◌∷◌, ◌++◌,
  arith, ok, >>=-eq-ok, str_eq, eq_iff, Bool-cases,
}
use keycard.Prelude.Dict.{Dict, get, values, get-put}
use keycard.Config.Types.{Config, RoomConfig}
use keycard.Routing.{
  Routing, Factories, name_for, contains, add, insert_sorted, sorted, add_backends, names_in_use,
  get_backend, get_all, new_routing,
}

-- What was built stays, under its name.
pub record Extends (s t : Routing) : Type 0 where
  pub config : t.config ≡ s.config
  pub keeps : (name : String) (b : ℕ) → get name s.backends ≡ some b → get name t.backends ≡ some b

pub Extends-refl : (s : Routing) → Extends s s
Extends-refl s = record { config = refl; keeps = λ name b e. e }

pub Extends-trans : (s t u : Routing) → Extends s t → Extends t u → Extends s u
Extends-trans s t u f g = record {
  config = g.config ∙ f.config;
  keeps = λ name b e. g.keeps name b (f.keeps name b e);
}

contains-insert_sorted :
    (name a : String) (bs : List String)
    → contains name (insert_sorted a bs) ≡ (str_eq a name || contains name bs)
unfolding contains insert_sorted
contains-insert_sorted name a [] = refl
contains-insert_sorted name a (b ∷ bs) = ground (arith, contains-insert_sorted name a bs)

pub contains-sorted :
    (name : String) (as' : List String) → contains name (sorted as') ≡ contains name as'
unfolding contains sorted
contains-sorted name [] = refl
contains-sorted name (a ∷ as') =
    ground (arith, contains-insert_sorted name a (sorted as'), contains-sorted name as')

contains-append :
    (name a : String) (ns : List String)
    → contains name (ns ++ a ∷ []) ≡ (contains name ns || str_eq a name)
unfolding contains
contains-append name a [] = ground arith
contains-append name a (n ∷ ns) = ground (arith, contains-append name a ns)

contains-add :
    (name a : String) (ns : List String)
    → contains name (add a ns) ≡ (contains name ns || str_eq a name)
unfolding add
contains-add name a ns = ground (arith, contains-append name a ns, eq_iff a name)

add_backends_mono :
    (name : String) (rooms : List RoomConfig) (ns : List String)
    → contains name ns ≡ true
    → contains name (add_backends rooms ns) ≡ true
unfolding add_backends
add_backends_mono name [] ns h = h
add_backends_mono name (room ∷ rooms) ns h =
    add_backends_mono name rooms _ (ground (arith, contains-add name room.backend ns))

add_backends-get :
    (key : String) (room : RoomConfig) (rooms : Dict RoomConfig) (ns : List String)
    → get key rooms ≡ some room
    → str_eq room.backend "" ≡ false
    → contains room.backend (add_backends (values rooms) ns) ≡ true
unfolding add_backends get
add_backends-get key room [] ns e named = cc
add_backends-get key room ((k, r) ∷ rooms) ns e named = elim (Bool-cases (str_eq k key)) [
  | inl here ↦
      add_backends_mono room.backend (values rooms) _
        (ground (arith, contains-add room.backend r.backend ns, eq_iff room.backend room.backend))
  | inr further ↦ add_backends-get key room rooms _ (ground arith) named
]

in_use :
    (config : Config) (key : String) (room : RoomConfig)
    → get key config.rooms ≡ some room
    → contains (name_for config room) (sorted (names_in_use config)) ≡ true
unfolding names_in_use name_for
in_use config key room e = rw contains-sorted (elim (Bool-cases (str_eq room.backend "")) [
  | inl none_named ↦ rw none_named (
      add_backends_mono config.backend (values config.rooms) _
        (unfold contains in ground (arith, eq_iff config.backend config.backend)))
  | inr named ↦ rw named (add_backends-get key room config.rooms _ e named)
])

module _ (f : Factories) where
  pub get_backend-Extends :
      (name : String) (b : ℕ) (s t : Routing) → get_backend f name s ≡ ok (b, t) → Extends s t
  unfolding get_backend
  get_backend-Extends name b s t e = record {
    config = ground arith;
    keeps = λ n c there. ground (arith, get-put name n s.constructed s.backends, eq_iff name n);
  }

  pub get_backend-found :
      (name : String) (b : ℕ) (s t : Routing)
      → get_backend f name s ≡ ok (b, t)
      → get name t.backends ≡ some b
  unfolding get_backend
  get_backend-found name b s t e =
      ground (arith, get-put name name s.constructed s.backends, eq_iff name name)

  record IsReady (names : List String) (s t : Routing) : Type 0 where
    extends : Extends s t
    there : (name : String) → contains name names ≡ true → (b : ℕ) × (get name t.backends ≡ some b)

  get_all-IsReady :
      (names : List String) (s t : Routing) → get_all f names s ≡ ok t → IsReady names s t
  unfolding get_all
  get_all-IsReady [] s t e = record {
    extends = record { config = ground arith; keeps = λ n b there. ground arith };
    there = λ name h. absurd (unfold contains in false≢true h);
  }
  get_all-IsReady (n ∷ names) s t e =
      let ((b, s₁), found, e') = >>=-eq-ok (get_backend f n s) _ e in
      let ih = get_all-IsReady names s₁ t e' in
      record {
        extends = Extends-trans s s₁ t (get_backend-Extends n b s s₁ found) ih.extends;
        there = λ name h. elim (Bool-cases (str_eq n name)) [
          | inl same ↦ (
            b,
            rw (← (eq_iff n name).0 same) (ih.extends.keeps n b (get_backend-found n b s s₁ found)),
          )
          | inr other ↦ ih.there name (unfold contains in ground arith)
        ];
      }

  pub new_routing-config :
      (config : Config) (s : Routing) → new_routing f config ≡ ok s → s.config ≡ config
  unfolding new_routing
  new_routing-config config s e =
      (get_all-IsReady (sorted (names_in_use config)) _ s e).extends.config

  -- When the registry has been constructed, the backend of each configured room is there, whether
  -- the room names it or inherits it from the top level: a backend that cannot be built is a
  -- failure at startup and not on a connection.
  pub new_routing_is_ready :
      (config : Config) (s : Routing) (key : String) (room : RoomConfig)
      → new_routing f config ≡ ok s
      → get key config.rooms ≡ some room
      → (s.config ≡ config) × ((b : ℕ) × (get (name_for config room) s.backends ≡ some b))
  unfolding new_routing
  new_routing_is_ready config s key room e found =
      let h = get_all-IsReady (sorted (names_in_use config)) _ s e in
      (h.extends.config, h.there (name_for config room) (in_use config key room found))
