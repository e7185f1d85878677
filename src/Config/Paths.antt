-- ===== src/Config/Paths.antt =====
-- The resource path that `targetPath` of pkg/adapter/config.go makes of checked segments.
use Prim.Native.Char.{Char, code}
use mathlib.Core.List.{append_assoc, append-nil}
use aadapter.Base.{
  ℕ, String, ◌≡◌, refl, sym, ap, ◌∙◌, ◌⊎◌, inl, inr, true, false, Bool-cases, List, [], ◌∷◌, ◌++◌,
  if◌then◌else◌, arith, chars, chars-append, ◌==◌,
}
use aadapter.Config.Segments.{
  is_alphanumeric, is_segment_char, all_segment_chars, is_segment, validate_vertex_resource_segment,
  VertexOperation, raw_predict, stream_raw_predict, generate_content, stream_generate_content,
  count_tokens, operation_name, target_path,
}
use aadapter.Base.Outcome.{ok}
use aadapter.Config.{Config, Environment}
use aadapter.Config.Load.{check_segments, load_config_from_env}
use aadapter.Config.Laws.{split_check, and_split, load-IsChecked}

-- The text between the characters with a code, as a reader of a path takes it apart.
abbrev pub split_on : ℕ → List Char → List Char → List (List Char)
split_on c seen [] = seen ∷ []
split_on c seen (ch ∷ rest) =
    let here = split_on c [] rest in
    let later = split_on c (seen ++ ch ∷ []) rest in if code ch == c then seen ∷ here else later

-- A separator is none of the characters of a segment.
abbrev IsSeparator : ℕ → Type 0
IsSeparator c = (c ≡ 47) ⊎ (c ≡ 58)

separator-char :
    (c : ℕ) (ch : Char) → IsSeparator c → is_segment_char ch ≡ true → (code ch == c) ≡ false
unfolding is_segment_char is_alphanumeric
separator-char c ch (inl h) is = ground arith
separator-char c ch (inr h) is = ground arith

split_on-segment :
    (c : ℕ) (segment seen rest : List Char)
    → IsSeparator c
    → all_segment_chars segment ≡ true
    → split_on c seen (segment ++ rest) ≡ split_on c (seen ++ segment) rest
unfolding all_segment_chars
split_on-segment c [] seen rest separates h = ap (λ x. split_on c x rest) (sym (append-nil seen))
split_on-segment c (ch ∷ segment) seen rest separates h =
    let (is, later) = and_split (is_segment_char ch) (all_segment_chars segment) h in
    rw (separator-char c ch separates is) (
      split_on-segment c segment (seen ++ ch ∷ []) rest separates later
      ∙ ap (λ x. split_on c x rest) (append_assoc seen (ch ∷ []) segment))

is_segment-all : (text : List Char) → is_segment text ≡ true → all_segment_chars text ≡ true
unfolding is_segment all_segment_chars is_segment_char
is_segment-all [] h = absurd (cc)
is_segment-all (ch ∷ rest) h =
    let (is, later) = and_split (is_alphanumeric ch) (all_segment_chars rest) h in
    rw (is, later) refl

validate-segment :
    (name value : String)
    → validate_vertex_resource_segment name value ≡ ok tt
    → all_segment_chars (chars value) ≡ true
unfolding validate_vertex_resource_segment
validate-segment name value h = elim (Bool-cases (is_segment (chars value))) [
  | inl is ↦ is_segment-all (chars value) is
  | inr other ↦ absurd (cc (rw (other, validate_vertex_resource_segment) at h))
]

operation-segment : (op : VertexOperation) → all_segment_chars (chars (operation_name op)) ≡ true
unfolding all_segment_chars is_segment_char is_alphanumeric
operation-segment raw_predict = refl
operation-segment stream_raw_predict = refl
operation-segment generate_content = refl
operation-segment stream_generate_content = refl
operation-segment count_tokens = refl

chars-target_path :
    (project location publisher : String) (op : VertexOperation) (model : String)
    → chars (target_path project location publisher op model)
      ≡ chars "/v1/projects/"
        ++ (chars project
            ++ (chars "/locations/"
                ++ (chars location
                    ++ (chars "/publishers/"
                        ++ (chars publisher
                            ++ (chars "/models/"
                                ++ (chars model ++ (chars ":" ++ chars (operation_name op)))))))))
unfolding target_path
chars-target_path project location publisher op model = simp (chars-append, target_path) refl

-- A segment that ends the text.
split_on-last :
    (c : ℕ) (segment seen : List Char)
    → IsSeparator c
    → all_segment_chars segment ≡ true
    → split_on c seen segment ≡ (seen ++ segment) ∷ []
split_on-last c segment seen separates h =
    ap (split_on c seen) (sym (append-nil segment)) ∙ split_on-segment c segment seen [] separates h

abbrev last_segment : String → VertexOperation → List Char
last_segment model op = chars model ++ (chars ":" ++ chars (operation_name op))

split_on-last_segment :
    (model : String) (op : VertexOperation)
    → all_segment_chars (chars model) ≡ true
    → split_on 58 [] (last_segment model op) ≡ chars model ∷ chars (operation_name op) ∷ []
split_on-last_segment model op h =
    split_on-segment 58 (chars model) [] (chars ":" ++ chars (operation_name op)) (inr refl) h
    ∙ ap (λ x. chars model ∷ x)
        (split_on-last 58 (chars (operation_name op)) [] (inr refl) (operation-segment op))

split_on-model :
    (model : String) (op : VertexOperation)
    → all_segment_chars (chars model) ≡ true
    → split_on 47 [] (last_segment model op) ≡ last_segment model op ∷ []
split_on-model model op h =
    split_on-segment 47 (chars model) [] (chars ":" ++ chars (operation_name op)) (inl refl) h
    ∙ split_on-last 47 (chars (operation_name op)) (chars model ++ chars ":") (inl refl)
        (operation-segment op)
    ∙ ap (λ x. x ∷ []) (append_assoc (chars model) (chars ":") (chars (operation_name op)))

split_on-path :
    (p l b m : List Char)
    → all_segment_chars p ≡ true
    → all_segment_chars l ≡ true
    → all_segment_chars b ≡ true
    → split_on 47 [] m ≡ m ∷ []
    → split_on 47 [] (
        chars "/v1/projects/"
        ++ (p
            ++ (chars "/locations/"
                ++ (l ++ (chars "/publishers/" ++ (b ++ (chars "/models/" ++ m)))))))
      ≡ []
        ∷ chars "v1"
        ∷ chars "projects"
        ∷ p
        ∷ chars "locations"
        ∷ l
        ∷ chars "publishers"
        ∷ b
        ∷ chars "models"
        ∷ m
        ∷ []
split_on-path p l b m hp hl hb hm =
    let sl = (λ (seg rest : List Char) (h : all_segment_chars seg ≡ true).
      split_on-segment 47 seg [] rest (inl refl) h) in
    ap (λ x. [] ∷ chars "v1" ∷ chars "projects" ∷ x)
      (sl p (chars "/locations/" ++ (l ++ (chars "/publishers/" ++ (b ++ (chars "/models/" ++ m)))))
          hp
        ∙ ap (λ x. p ∷ chars "locations" ∷ x)
            (sl l (chars "/publishers/" ++ (b ++ (chars "/models/" ++ m))) hl
              ∙ ap (λ x. l ∷ chars "publishers" ∷ x)
                  (sl b (chars "/models/" ++ m) hb ∙ ap (λ x. b ∷ chars "models" ∷ x) hm)))

check_segments-all :
    (e : Environment) (cfg : Config)
    → check_segments e cfg ≡ ok tt
    → (all_segment_chars (chars cfg.project) ≡ true)
      × (all_segment_chars (chars cfg.location) ≡ true)
      × (all_segment_chars (chars cfg.publisher) ≡ true)
unfolding check_segments
check_segments-all e cfg h =
    let (project, h1) =
      split_check (validate_vertex_resource_segment "VERTEX_PROJECT" cfg.project) _ h in
    let (location, h2) =
      split_check (validate_vertex_resource_segment "VERTEX_LOCATION" cfg.location) _ h1 in
    let (publisher, _) =
      split_check (validate_vertex_resource_segment "VERTEX_PUBLISHER" cfg.publisher) _ h2 in
    (
      validate-segment "VERTEX_PROJECT" cfg.project project,
      validate-segment "VERTEX_LOCATION" cfg.location location,
      validate-segment "VERTEX_PUBLISHER" cfg.publisher publisher,
    )

-- The path of an operation on a checked model, with a configuration that was loaded, has the ten
-- segments that it is meant to have, whatever the environment and the request say: read at its
-- slashes it gives back the project, the location and the publisher, each as one segment, and
-- the last one, read at its colon, the model and the operation.
pub target_path-segments :
    (e : Environment) (cfg : Config) (name model : String) (op : VertexOperation)
    → load_config_from_env e ≡ ok cfg
    → validate_vertex_resource_segment name model ≡ ok tt
    → (last : List Char) × (split_on 47 []
          (chars (target_path cfg.project cfg.location cfg.publisher op model))
        ≡ []
          ∷ chars "v1"
          ∷ chars "projects"
          ∷ chars cfg.project
          ∷ chars "locations"
          ∷ chars cfg.location
          ∷ chars "publishers"
          ∷ chars cfg.publisher
          ∷ chars "models"
          ∷ last
          ∷ [])
      × (split_on 58 [] last ≡ chars model ∷ chars (operation_name op) ∷ [])
target_path-segments e cfg name model op h valid =
    let (project, location, publisher) =
      check_segments-all e cfg (load-IsChecked e cfg h).segments in
    let is_model = validate-segment name model valid in
    (
      last_segment model op,
      ap (split_on 47 []) (chars-target_path cfg.project cfg.location cfg.publisher op model)
          ∙ split_on-path (chars cfg.project) (chars cfg.location) (chars cfg.publisher)
              (last_segment model op) project location publisher (split_on-model model op is_model),
      split_on-last_segment model op is_model,
    )
