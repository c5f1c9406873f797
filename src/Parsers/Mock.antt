-- ===== src/Parsers/Mock.antt =====
-- infrastructure/adapters/parsers/mock_collector.py: the synthetic catalogue. The time at which each
-- product is built is a parameter.
use marketplace_pipeline.Base.{
  ℕ, suc, zero, ◌+◌, ◌*◌, ◌%◌, ◌≡◌, refl, false, none, List, [], ◌∷◌, ◌++◌, map, Text, codes,
  decimal, length, ltb, nat_eq, if◌then◌else◌, arith, length-map, get_elem?, some, ap, ◌∙◌, ◌<◌,
}
use marketplace_pipeline.Domain.Entities.{Product, CollectionResult}

abbrev category_name : Text
category_name = codes "Смартфоны (mock)"

abbrev mock_price : ℕ → ℕ
mock_price index =
    if nat_eq (index % 3) 0
    then 5000 + index % 50 * 100
    else if nat_eq (index % 3) 1
    then 25000 + index % 100 * 200
    else 80000 + index % 30 * 1000

abbrev mock_name : ℕ → Text
mock_name index =
    if nat_eq (index % 3) 0
    then codes "BudgetPhone " ++ decimal index
    else if nat_eq (index % 3) 1
    then codes "MidRange " ++ decimal index
    else codes "Flagship Pro " ++ decimal index

-- `_build_product`
unfoldable pub build_product : ℕ → ℕ → Product
build_product now index = record {
  id = codes "mock-" ++ decimal index;
  name = mock_name index;
  price = mock_price index;
  currency = codes "RUB";
  url = codes "https://www.ozon.ru/product/mock-" ++ (decimal index ++ codes "/");
  category = category_name;
  collected_at = now;
  description = mock_name index ++ (codes ". Категория " ++ (category_name ++ codes "."));
}

-- `range(first, first + count)`
unfoldable pub range : ℕ → ℕ → List ℕ
range first zero = []
range first (suc count) = first ∷ range (suc first) count

-- `collect`
unfoldable pub mock_collect : (ℕ → ℕ) → ℕ → CollectionResult
unfolding build_product range
mock_collect now target_count =
    let products = map (λ index. build_product (now index) index) (range 1 target_count) in
    record {
      products = products;
      target_count = target_count;
      collected_count = length products;
      exhausted = ltb (length products) target_count;
      degraded = false;
      error_message = none;
    }

length-range : (first count : ℕ) → length (range first count) ≡ count
unfolding range
length-range first zero = refl
length-range first (suc count) = ap suc (length-range (suc first) count)

range-get :
    (f : ℕ → Product) (first count i : ℕ)
    → i < count
    → get_elem? (map f (range first count)) i ≡ some (f (first + i))
unfolding range
range-get f first zero i h = absurd (omega arith)
range-get f first (suc count) zero h = ap (λ n. some (f n)) (omega arith)
range-get f first (suc count) (suc i) h =
    range-get f (suc first) count i (omega arith) ∙ ap (λ n. some (f n)) (omega arith)

-- The synthetic catalogue always has the number of products that is asked for and is never reported
-- as exhausted, and its product at index `i` is the one that is built for the number `1 + i`.
pub mock_collect_lem :
    (now : ℕ → ℕ) (target_count : ℕ)
    → ((mock_collect now target_count).collected_count ≡ target_count)
      × ((mock_collect now target_count).exhausted ≡ false)
      × ((i : ℕ)
          → i < target_count
          → get_elem? (mock_collect now target_count).products i
            ≡ some (build_product (now (1 + i)) (1 + i)))
unfolding mock_collect
mock_collect_lem now target_count =
    let built = λ (n : ℕ). build_product (now n) n in
    let all : length (map built (range 1 target_count)) ≡ target_count =
      length-map (range 1 target_count) built ∙ length-range 1 target_count in
    (all, ground (arith, all), range-get built 1 target_count)
