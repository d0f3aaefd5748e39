-- ===== src/Utils/Laws.antt =====
-- The choice of a yaml file by its id.
use computing_api.Base.{
  Bool-cases, List, Result, Str, [], ap, arith, bind-eq-ok, err, inl, inr, ok, panic, rescue-eq-ok,
  ℕ, ◌==◌, ◌↔◌, ◌∙◌, ◌∷◌, ◌≡◌, ◌≢◌,
}
use computing_api.Utils.{Model, find_path, get_path_by_id, load_model, string_to_uint64}

-- The first model of a list with an id, the models before it having other ids.
pub data FirstWithId (id : ℕ) : List Model → Model → Type 0 where
  here : {m : Model} {ms : List Model} → m.id ≡ id → FirstWithId id (m ∷ ms) m
  later :
      {m found : Model} {ms : List Model}
      → m.id ≢ id
      → FirstWithId id ms found
      → FirstWithId id (m ∷ ms) found

find_path_sound :
    (id : ℕ) (ms : List Model) (p : Str)
    → find_path id ms ≡ ok p
    → (m : Model) × FirstWithId id ms m × (m.path ≡ p)
unfolding find_path
find_path_sound id [] p h = cc
find_path_sound id (m ∷ ms) p h = elim (Bool-cases (m.id == id)) [
  | inl same ↦ (m, here (ground arith), ground arith)
  | inr other ↦
      let (found, first, path) = find_path_sound id ms p (ground arith) in
      (found, later (ground arith) first, path)
]

find_path_complete :
    {id : ℕ} {ms : List Model} {m : Model} → FirstWithId id ms m → find_path id ms ≡ ok m.path
unfolding find_path
find_path_complete (here e) = ground arith
find_path_complete (later ne first) = ground (arith, find_path_complete first)

load_model-eq-ok : (file : Result Str) (b : Str) → load_model file ≡ ok b → file ≡ ok b
unfolding load_model
load_model-eq-ok (ok b') b h = h
load_model-eq-ok (err e) b h = cc
load_model-eq-ok (panic why) b h = cc

get_path_by_id_sound :
    (unmarshal : Str → Result (List Model)) (file : Result Str) (id p : Str)
    → get_path_by_id unmarshal file id ≡ ok p
    → (n : ℕ) × (b : Str) × (ms : List Model) × (m : Model) × (string_to_uint64 id ≡ ok n)
      × (file ≡ ok b)
      × (unmarshal b ≡ ok ms)
      × FirstWithId n ms m
      × (m.path ≡ p)
unfolding get_path_by_id
get_path_by_id_sound unmarshal file id p h =
    let (n, en, h1) = bind-eq-ok (string_to_uint64 id) _ h in
    let (b, eb, h2) = bind-eq-ok (load_model file) _ h1 in
    let (ms, em, h3) = rescue-eq-ok (unmarshal b) "json.Unmarshal" (find_path n) h2 in
    let (m, first, path) = find_path_sound n ms p h3 in
    (n, b, ms, m, en, load_model-eq-ok file b eb, em, first, path)

-- `GetPathByID` returns a path exactly when the text is a number, the list file can be read and
-- decoded, and the path is that of the first model with that number as its id.
get_path_by_id_iff :
    (unmarshal : Str → Result (List Model)) (file : Result Str) (id p : Str)
    → (get_path_by_id unmarshal file id ≡ ok p) ↔ (
        (n : ℕ) × (b : Str) × (ms : List Model) × (m : Model) × (string_to_uint64 id ≡ ok n)
        × (file ≡ ok b)
        × (unmarshal b ≡ ok ms)
        × FirstWithId n ms m
        × (m.path ≡ p))
unfolding get_path_by_id
get_path_by_id_iff unmarshal file id p = (
  get_path_by_id_sound unmarshal file id p,
  λ (n, b, ms, m, en, eb, em, first, path). rw (en, eb, em) (find_path_complete first ∙ ap ok path),
)
