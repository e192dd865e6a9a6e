-- ===== src/Tests/Reviews.antt =====
-- Reviews of product images (backend/app/catalog/image_review.py): a product whose primary image is replaced.
use ai_repo.Prelude.{
  ℕ, String, ◌≡◌, ◌↔◌, ◌⊎◌, refl, sym, ap, ◌∙◌, inl, inr, some, none, Bool, true, false, [], ◌∷◌,
  In, pos, ◌==◌, if◌then◌else◌, arith,
}
use ai_repo.Runtime.{Milli, milli_builtins}
use ai_repo.Catalog.Images.{ProductImage, Machine, ImageReviewConfig, ImageEvaluation, acceptable}
use ai_repo.Catalog.Images.Evaluate.{evaluate_values, evaluation_of}
use ai_repo.Catalog.Images.Sections.{
  rights_part, checksum_part, source_part, url_part, duplicate_part, url_duplicates, dimension_part,
  aspect_part, format_part, file_size_part, freshness_part,
}
use ai_repo.Catalog.Images.Evaluate.Acceptable.{IsFit, evaluate-acceptable_iff}
use ai_repo.Catalog.Review.{Session, recorded, approve_primary}
use ai_repo.Catalog.Review.Decide.{
  record_decision, Step, decide, here, next, decided_session, decided_image,
}
use ai_repo.Catalog.Review.Sound.{IsSound}
use ai_repo.Catalog.Review.Steps.{Reach-IsSound}
use ai_repo.Catalog.Review.Trail.{IsTraced, Reach-IsTraced}
use ai_repo.Catalog.Review.Earned.{IsEarned, Step-IsEarned}

unfoldable capitals : String → String
capitals s = if s == "approved" then "APPROVED" else s

abbrev machine : Machine
machine = record {
  getenv = λ name. some "true";
  lower = λ s. s;
  upper = capitals;
  parse_int = λ s. none;
  parse_url = λ s. none;
  now = 1000;
}

abbrev config : ImageReviewConfig Milli
config = record {
  minimum_width = pos 320;
  minimum_height = pos 240;
  maximum_width = pos 4096;
  maximum_height = pos 4096;
  maximum_file_size = pos 5000000;
  minimum_aspect_ratio = 500;
  maximum_aspect_ratio = 4000;
  freshness_days = 180;
  maximum_images_per_product = 12;
  allowed_hosts = [];
}

abbrev picture : ℕ → String → Bool → ProductImage
picture id review primary = record {
  id = id;
  product_id = 7;
  category = some "CPU";
  source_url = none;
  storage_key = some "/cards/7";
  source_type = "MANUFACTURER";
  width = some (pos 800);
  height = some (pos 600);
  format = some "PNG";
  file_size = some (pos 90000);
  checksum = some (if primary then "aa" else "bb");
  rights_status = "approved";
  quality_status = "acceptable";
  review_status = review;
  is_primary = primary;
  verified_at = some 900;
  updated_at = 900;
}

abbrev start : Session
start = record { images = picture 1 "approved" true ∷ picture 2 "pending" false ∷ []; reviews = [] }

abbrev after : Session
after =
    decided_session machine config approve_primary "BETTER" "Sharper picture" "r-1"
      (picture 2 "pending" false) start

fine : ImageEvaluation
fine =
    evaluation_of machine config start.images (picture 2 "pending" false)
      ("PASS", "LOCAL_REFERENCE")

fine_runs : evaluate_values machine config start.images (picture 2 "pending" false) ≡ some fine
unfolding evaluate_values fine
fine_runs = refl

evaluate-acceptable_iff_example :
    (fine.classification ≡ acceptable)
    ↔ IsFit machine config start.images (picture 2 "pending" false)
evaluate-acceptable_iff_example =
    evaluate-acceptable_iff machine config start.images (picture 2 "pending" false) fine_runs

recorded_runs :
    record_decision machine config 2 "APPROVE_PRIMARY" "BETTER" "Sharper picture" "r-1" start
    ≡ recorded after
unfolding record_decision capitals url_part rights_part dimension_part aspect_part format_part
    file_size_part checksum_part duplicate_part url_duplicates source_part freshness_part
recorded_runs = refl

start-In :
    (i : ProductImage)
    → In i start.images
    → (i ≡ picture 1 "approved" true) ⊎ (i ≡ picture 2 "pending" false)
start-In i m = elim m [ inl e ↦ inl e | inr k ↦ elim k [ inl e ↦ inr e | inr n ↦ absurd n ] ]

start-IsSound : IsSound start.images
start-IsSound = record {
  keys = λ i j m k e. elim (start-In i m) [
    | inl p ↦ elim (start-In j k) [
      | inl q ↦ p ∙ sym q
      | inr q ↦
          let f : ◌≡◌ {A = ℕ} 1 2 = sym (ap (λ x. x.id) p) ∙ e ∙ ap (λ x. x.id) q in
          absurd (omega arith)
    ]
    | inr p ↦ elim (start-In j k) [
      | inl q ↦
          let f : ◌≡◌ {A = ℕ} 2 1 = sym (ap (λ x. x.id) p) ∙ e ∙ ap (λ x. x.id) q in
          absurd (omega arith)
      | inr q ↦ p ∙ sym q
    ]
  ];
  products = λ i m. elim (start-In i m) [ inl p ↦ rw p (omega arith) | inr p ↦ rw p (omega arith) ];
  earned = λ i m. elim (start-In i m) [
    | inl p ↦ rw p (λ _. (refl, refl))
    | inr p ↦ rw p (λ _. (refl, refl))
  ];
  one_primary = λ i j m k same p q. elim (start-In i m) [
    | inl e ↦ elim (start-In j k) [
      | inl f ↦ ap (λ x. x.id) (e ∙ sym f)
      | inr f ↦ cc (ap (λ x. x.is_primary) f)
    ]
    | inr e ↦ cc (ap (λ x. x.is_primary) e)
  ];
}

start-Step : Step machine config start after
start-Step = decide 2 "APPROVE_PRIMARY" "BETTER" "Sharper picture" "r-1" recorded_runs

Reach-IsSound_example : IsSound after.images
Reach-IsSound_example = Reach-IsSound machine config (next here start-Step) start-IsSound

Reach-IsTraced_example : IsTraced after
Reach-IsTraced_example =
    Reach-IsTraced machine config (next here start-Step)
      (record { chained = tt; current = λ i m. tt })

abbrev second : ProductImage
second = record (picture 2 "approved" true) { checksum = some "bb"; updated_at = 1000 }

Step-IsEarned_example : IsEarned machine config start.images second
unfolding decided_session decided_image
Step-IsEarned_example = Step-IsEarned machine config start-Step second (inr (inl refl)) refl
