-- ===== src/Parsers/Ozon/Page.antt =====
-- `_fetch_page` of infrastructure/adapters/parsers/ozon_collector.py and what it calls. The payload's
-- widgets are a parameter, `none` for a value that is no text, as is the search of the regular
-- expression: the identifier, the title and the price of each block. A digit is one of 0 to 9.
use marketplace_pipeline.Base.{
  ℕ, zero, suc, ◌+◌, ◌-◌, ◌*◌, ◌≤◌, ◌≡◌, refl, Bool, ◌&&◌, ◌||◌, Option, none, some, List, [], ◌∷◌,
  ◌++◌, Text, codes, decimal, rstrip_by, starts_with, includes, filter, is_empty, take, length,
  length-take, leb, nat_eq, if◌then◌else◌, All, All-append, Result, ok, err, arith, subst,
  Bool-cases, inl, inr,
}
use marketplace_pipeline.Domain.Entities.{Product}

-- `_page_url`
unfoldable pub page_url : Text → ℕ → Text
page_url category_path page =
    let base = rstrip_by (λ c. nat_eq c b'/') category_path in
    if leb page 1 then base ++ codes "/" else base ++ (codes "/?page=" ++ decimal page)

abbrev is_digit : ℕ → Bool
is_digit c = leb 48 c && leb c 57

-- `float(digits)`
unfoldable pub number_of : ℕ → Text → ℕ
number_of n [] = n
number_of n (c ∷ digits) = number_of (n * 10 + (c - 48)) digits

-- `_parse_price`
unfoldable pub parse_price : Text → Option ℕ
unfolding number_of
parse_price value =
    let digits = filter is_digit value in
    if is_empty digits then none else some (number_of 0 digits)

-- `title.replace("\\u0026", "&")`, with the number of characters that belong to a match.
unfoldable pub unescape : ℕ → Text → Text
unescape skipped [] = []
unescape (suc skipped) (c ∷ title) = unescape skipped title
unescape zero (c ∷ title) =
    let behind_match = unescape 5 title in
    let behind_char = unescape 0 title in
    if starts_with (92 ∷ codes "u0026") (c ∷ title) then b'&' ∷ behind_match else c ∷ behind_char

abbrev ozon_category : Text
ozon_category = codes "Смартфоны"

pub record SkuBlock : Type 0 where
  pub sku : Text
  pub title : Text
  pub price : Text

abbrev product_of : ℕ → SkuBlock → Option ℕ → List Product
product_of now block none = []
product_of now block (some price) =
    record {
      id = block.sku;
      name = unescape 0 block.title;
      price = price;
      currency = codes "RUB";
      url = codes "https://www.ozon.ru/product/" ++ (block.sku ++ codes "/");
      category = ozon_category;
      collected_at = now;
      description = codes "Категория: " ++ (ozon_category ++ (codes ". " ++ block.title));
    }
    ∷ []

-- `_extract_from_widget`, from the blocks that the regular expression finds.
unfoldable pub extract_products : ℕ → List SkuBlock → List Product
unfolding parse_price unescape
extract_products now [] = []
extract_products now (block ∷ blocks) =
    product_of now block (parse_price block.price) ++ extract_products now blocks

abbrev is_product_widget : Text → Bool
is_product_widget raw = includes (codes "tileGridDesktop") raw || includes (codes "sku") raw

-- `_parse_products`
unfoldable pub parse_products : (Text → List SkuBlock) → ℕ → List (Option Text) → List Product
unfolding extract_products
parse_products find_blocks now [] = []
parse_products find_blocks now (none ∷ widgets) = parse_products find_blocks now widgets
parse_products find_blocks now (some raw ∷ widgets) =
    let rest = parse_products find_blocks now widgets in
    if is_product_widget raw then extract_products now (find_blocks raw) ++ rest else rest

abbrev page_of :
    (Text → List SkuBlock) → ℕ → ℕ → Result (List (Option Text)) → Result (List Product)
page_of find_blocks page_size now (err e) = err e
page_of find_blocks page_size now (ok widgets) =
    ok (take page_size (parse_products find_blocks now widgets))

module _ {S : Type 0} (get_widgets : Text → S → Result (List (Option Text)) × S)
    (find_blocks : Text → List SkuBlock) (category_path : Text) (page_size now : ℕ) where
  -- `_fetch_page`, over either HTTP client.
  unfoldable pub fetch_page : ℕ → S → Result (List Product) × S
  unfolding page_url parse_products
  fetch_page page s =
      let (fetched, s') = get_widgets (page_url category_path page) s in
      (page_of find_blocks page_size now fetched, s')

-- A product as the collector makes it: its address has its identifier.
abbrev pub IsOzonProduct : Product → Type 0
IsOzonProduct p =
    (p.url ≡ codes "https://www.ozon.ru/product/" ++ (p.id ++ codes "/"))
    × (p.currency ≡ codes "RUB")

product_of-IsOzonProduct :
    (now : ℕ) (block : SkuBlock) (price : Option ℕ) → All IsOzonProduct (product_of now block price)
product_of-IsOzonProduct now block none = tt
product_of-IsOzonProduct now block (some price) = ((refl, refl), tt)

extract_products-IsOzonProduct :
    (now : ℕ) (blocks : List SkuBlock) → All IsOzonProduct (extract_products now blocks)
unfolding extract_products
extract_products-IsOzonProduct now [] = tt
extract_products-IsOzonProduct now (block ∷ blocks) =
    All-append IsOzonProduct (product_of now block (parse_price block.price))
      (extract_products now blocks) (product_of-IsOzonProduct now block (parse_price block.price))
      (extract_products-IsOzonProduct now blocks)

parse_products-IsOzonProduct :
    (find_blocks : Text → List SkuBlock) (now : ℕ) (widgets : List (Option Text))
    → All IsOzonProduct (parse_products find_blocks now widgets)
unfolding parse_products
parse_products-IsOzonProduct find_blocks now [] = tt
parse_products-IsOzonProduct find_blocks now (none ∷ widgets) =
    parse_products-IsOzonProduct find_blocks now widgets
parse_products-IsOzonProduct find_blocks now (some raw ∷ widgets) =
    elim (Bool-cases (is_product_widget raw)) [
      | inl shown ↦ rw shown (
          All-append IsOzonProduct (extract_products now (find_blocks raw))
            (parse_products find_blocks now widgets)
            (extract_products-IsOzonProduct now (find_blocks raw))
            (parse_products-IsOzonProduct find_blocks now widgets))
      | inr hidden ↦ rw hidden (parse_products-IsOzonProduct find_blocks now widgets)
    ]

take-All :
    (n : ℕ) (products : List Product)
    → All IsOzonProduct products
    → All IsOzonProduct (take n products)
take-All zero products h = tt
take-All (suc n) [] h = tt
take-All (suc n) (p ∷ products) h = (h.0, take-All n products h.1)

page_of-IsOzonProduct :
    (find_blocks : Text → List SkuBlock) (page_size now : ℕ) (fetched : Result (List (Option Text)))
    (products : List Product)
    → page_of find_blocks page_size now fetched ≡ ok products
    → (length products ≤ page_size) × All IsOzonProduct products
page_of-IsOzonProduct find_blocks page_size now (err e) products h = ground arith
page_of-IsOzonProduct find_blocks page_size now (ok widgets) products h =
    let parsed = parse_products find_blocks now widgets in
    let same : take page_size parsed ≡ products = ground (arith, h) in
    subst (λ found. (length found ≤ page_size) × All IsOzonProduct found) same
      (
        omega (arith, length-take page_size parsed),
        take-All page_size parsed (parse_products-IsOzonProduct find_blocks now widgets),
      )

-- Whatever the payload holds, a page that is fetched has at most `page_size` products, all priced in
-- roubles and with an address that is made from their identifier.
pub fetch_page-IsOzonProduct :
    {S : Type 0} (get_widgets : Text → S → Result (List (Option Text)) × S)
    (find_blocks : Text → List SkuBlock) (category_path : Text) (page_size now page : ℕ) (s : S)
    (products : List Product)
    → (fetch_page get_widgets find_blocks category_path page_size now page s).0 ≡ ok products
    → (length products ≤ page_size) × All IsOzonProduct products
unfolding fetch_page
fetch_page-IsOzonProduct get_widgets find_blocks category_path page_size now page s products =
    page_of-IsOzonProduct find_blocks page_size now (get_widgets (page_url category_path page) s).0
      products
