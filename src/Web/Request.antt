-- ===== src/Web/Request.antt =====
-- web.c: `is_support_method`, `parse_uri`, `get_filetype`, `post_https_requesthdrs`.
use xteam.Prelude.{
  ℕ, zero, suc, Bool, true, false, ◌||◌, Option, none, some, [], ◌++◌, map, ltb, ◌==◌,
  if◌then◌else◌, length,
}
use xteam.Web.Bytes.{
  Bytes, drop, codes, same, starts_with, strstr, is_found, split_at, last_or, fit, lower, atol,
}

abbrev pub web_file_path : Bytes
web_file_path = codes "./htdocs"

-- The loop over `support_method`.
unfoldable pub is_support_method : Bytes → Bool
unfolding same
is_support_method method =
    same (codes "GET") method || (same (codes "POST") method || same (codes "HEAD") method)

pub record Target : Type 0 where
  pub is_static : Bool
  pub filename : Bytes
  pub cgiargs : Bytes

-- `parse_uri`; `before` is the byte that stands before `uri` in memory, which is read if it is empty.
unfoldable pub parse_uri : ℕ → Bytes → Target
unfolding strstr is_found split_at last_or
parse_uri before uri =
    let home = if last_or before uri == 47 then codes "home.html" else [] in
    if is_found (strstr uri (codes "cgi-bin"))
    then elim (split_at 63 uri) [
      | none ↦ record { is_static = false; filename = web_file_path ++ uri; cgiargs = [] }
      | some (path, query) ↦ record {
        is_static = false;
        filename = web_file_path ++ path;
        cgiargs = query;
      }
    ]
    else record { is_static = true; filename = web_file_path ++ uri ++ home; cgiargs = [] }

-- `get_filetype`; `filetype` is what the caller's array holds before.
unfoldable pub get_filetype : Bytes → Bytes → Bytes
unfolding strstr is_found
get_filetype filename filetype =
    if is_found (strstr filename (codes ".html"))
    then codes "text/html"
    else if is_found (strstr filename (codes ".gif"))
    then codes "image/gif"
    else if is_found (strstr filetype (codes ".jpg"))
    then codes "image/jpeg"
    else codes "text/plain"

-- The walk of `post_https_requesthdrs` over the lines; `line` is the array for one of them, and keeps
-- what a longer line left there. `none` where it is still going on.
unfoldable pub scan_headers : ℕ → Bytes → Bytes → ℕ → Option ℕ
unfolding same split_at starts_with lower atol drop
scan_headers zero ptr line content_length =
    if same ptr (codes "\r\n") then some content_length else none
scan_headers (suc n) ptr line content_length =
    if same ptr (codes "\r\n") then some content_length else elim (split_at 10 ptr) [
      | none ↦ scan_headers n ptr line content_length
      | some (front, rest) ↦
          let line' = front ++ drop (length front) line in
          let found = atol (drop 15 line') in
          let skip = scan_headers n rest line content_length in
          let go_on = scan_headers n rest line' found in
          if starts_with (codes "content-length:") (map lower ptr)
          then if ltb 0 found then some found else go_on
          else skip
    ]

-- `post_https_requesthdrs`: the length of the content, and the array with the content.
unfoldable pub post_https_requesthdrs : ℕ → Bytes → Bytes → Option (ℕ × Bytes)
unfolding scan_headers strstr fit drop
post_https_requesthdrs fuel buf cgiargs = elim (scan_headers fuel buf [] 0) [
  | none ↦ none
  | some n ↦ elim (strstr buf (codes "\r\n\r\n")) [
    | none ↦ some (n, cgiargs)
    | some end_ ↦ some (n, fit n (drop 4 end_) ++ drop n cgiargs)
  ]
]
