-- ===== src/Http/Headers.antt =====
-- infrastructure/http/ozon_http.py: the parsing of its two settings and the headers of a browser.
use marketplace_pipeline.Base.{
  ℕ, not, Option, none, some, List, [], ◌∷◌, map, Text, Text-Eq, codes, split, strip, is_empty,
  filter, decimal, ltb, nat_eq, if◌then◌else◌, Dict, insert, find, take, drop, suc,
}

-- `raw.replace("\n", ",")`
abbrev commas_for_lines : Text → Text
commas_for_lines raw = map (λ c. if nat_eq c 10 then b',' else c) raw

unfoldable pub parse_proxy_list : Text → List Text
parse_proxy_list raw =
    if is_empty (strip raw)
    then []
    else map strip
        (filter (λ part. not (is_empty (strip part))) (split b',' (commas_for_lines raw)))

abbrev set_cookie : Text → Option ℕ → Dict Text Text → Dict Text Text
set_cookie cookie none cookies = cookies
set_cookie cookie (some i) cookies =
    insert (strip (take i cookie)) (strip (drop (suc i) cookie)) cookies

-- The loop of `parse_cookie_header`, over the parts between the semicolons. A part with an equals
-- sign is not empty.
unfoldable pub parse_cookies : List Text → Dict Text Text → Dict Text Text
parse_cookies [] cookies = cookies
parse_cookies (part ∷ parts) cookies =
    parse_cookies parts (set_cookie (strip part) (find (codes "=") (strip part)) cookies)

unfoldable pub parse_cookie_header : Text → Dict Text Text
unfolding parse_cookies
parse_cookie_header raw = parse_cookies (split b';' raw) []

pub record BrowserProfile : Type 0 where
  pub name : Text
  pub user_agent : Text
  pub sec_ch_ua : Option Text
  pub sec_ch_ua_mobile : Option Text
  pub sec_ch_ua_platform : Option Text

pub record SessionFingerprint : Type 0 where
  pub profile : BrowserProfile
  pub viewport_width : ℕ
  pub viewport_height : ℕ

-- `if value is not None: headers[name] = value`
abbrev set_header : Text → Option Text → Dict Text Text → Dict Text Text
set_header name none headers = headers
set_header name (some value) headers = insert name value headers

abbrev mobile_of : Option Text → ℕ → Option Text
mobile_of none width = if ltb width 500 then some (codes "?1") else none
mobile_of (some mobile) width = some mobile

abbrev plain_headers : Text → Text → ℕ → Dict Text Text
plain_headers user_agent referer width =
    (codes "User-Agent", user_agent)
    ∷ (codes "Accept", codes "application/json, text/plain, */*")
    ∷ (codes "Accept-Language", codes "ru-RU,ru;q=0.9,en-US;q=0.8,en;q=0.7")
    ∷ (codes "Referer", referer)
    ∷ (codes "Origin", codes "https://www.ozon.ru")
    ∷ (codes "Sec-Fetch-Site", codes "same-origin")
    ∷ (codes "Sec-Fetch-Mode", codes "cors")
    ∷ (codes "Sec-Fetch-Dest", codes "empty")
    ∷ (codes "Viewport-Width", decimal width)
    ∷ []

unfoldable pub browser_headers : SessionFingerprint → Text → Dict Text Text
browser_headers fingerprint referer =
    let profile = fingerprint.profile in
    set_header (codes "sec-ch-ua-platform") profile.sec_ch_ua_platform (
      set_header (codes "sec-ch-ua-mobile")
        (mobile_of profile.sec_ch_ua_mobile fingerprint.viewport_width)
        (set_header (codes "sec-ch-ua") profile.sec_ch_ua
          (plain_headers profile.user_agent referer fingerprint.viewport_width)))

-- What `_mask_proxy` shows of a proxy in the log: what follows the first `@`.
abbrev after_at : Text → Option ℕ → Text
after_at proxy none = proxy
after_at proxy (some i) = drop (suc i) proxy

unfoldable pub mask_proxy : Option Text → Text
mask_proxy none = codes "direct"
mask_proxy (some proxy) =
    if is_empty proxy then codes "direct" else after_at proxy (find (codes "@") proxy)
