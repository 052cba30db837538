-- ===== src/Web/Tests.antt =====
-- web.c: requests to a small site.
use xteam.Prelude.{◌+◌, ◌≤◌, ◌≡◌, refl, true, false, none, some, List, [], ◌∷◌, ◌++◌, arith, length}
use xteam.Web.Bytes.{Bytes, codes, until_nul, starts_with, lower}
use xteam.Web.Request.{parse_uri, get_filetype, post_https_requesthdrs}
use xteam.Web.Reply.{Stat, Site, wrote}
use xteam.Web.Serve.{request_words, doit}
use xteam.Web.Uri.{IsParsed, parse_uri_lem, parse_uri-bounds}
use xteam.Web.Head.{doit-head}
use xteam.Web.Endless.{IsPlain, post_https_requesthdrs-endless}

abbrev page : Stat
page = record { regular = true; readable = true; executable = false; size = 3 }

abbrev site : Site
site = record {
  stat = λ name. some page;
  content = λ name. codes "abc";
  cgi = λ name query len input. input;
  decimal = λ n. (48 + n) ∷ [];
}

abbrev head_request : Bytes
head_request = codes "HEAD /a.html HTTP/1.0\r\n\r\n"

abbrev get_request : Bytes
get_request = codes "GET /a.html HTTP/1.0\r\n\r\n"

doit-head_example :
    (header : Bytes) × (body : Bytes) × (doit site 0 9 head_request ≡ some (wrote header))
    × (doit site 0 9 get_request ≡ some (wrote (header ++ body)))
    × (length body ≡ 3)
unfolding request_words until_nul parse_uri
doit-head_example =
    doit-head site 0 9 head_request get_request (codes "/a.html") page refl refl refl refl refl refl
      refl refl (omega arith)

parse_uri_lem_example :
    IsParsed 0 (codes "/cgi-bin/add?a=1") (parse_uri 0 (codes "/cgi-bin/add?a=1"))
parse_uri_lem_example = parse_uri_lem 0 (codes "/cgi-bin/add?a=1")

parse_uri_runs :
    parse_uri 0 (codes "/cgi-bin/add?a=1")
    ≡ record { is_static = false; filename = codes "./htdocs/cgi-bin/add"; cgiargs = codes "a=1" }
unfolding parse_uri
parse_uri_runs = refl

parse_uri-bounds_example :
    let t = parse_uri 0 (codes "/doc/") in (length t.filename ≤ 5 + 17) × (length t.cgiargs ≤ 5)
parse_uri-bounds_example = parse_uri-bounds 0 (codes "/doc/")

-- A name with .jpg counts as plain text.
jpg_is_plain : get_filetype (codes "./htdocs/a.jpg") [] ≡ codes "text/plain"
unfolding get_filetype
jpg_is_plain = refl

abbrev head_lines : List Bytes
head_lines = codes "POST /cgi-bin/add HTTP/1.0\r" ∷ codes "\r" ∷ []

lines-IsPlain : IsPlain head_lines (codes "a=1")
unfolding starts_with lower
lines-IsPlain = (refl, refl, (refl, refl, tt))

post_https_requesthdrs-endless_example :
    post_https_requesthdrs 1000 (codes "POST /cgi-bin/add HTTP/1.0\r\n\r\na=1") [] ≡ none
post_https_requesthdrs-endless_example =
    post_https_requesthdrs-endless 1000 head_lines (codes "a=1") [] lines-IsPlain (omega arith) refl

-- With a length the content is found.
post_runs :
    post_https_requesthdrs 9 (codes "POST /cgi-bin/add HTTP/1.0\r\nContent-Length: 3\r\n\r\na=1") []
    ≡ some (3, codes "a=1")
unfolding post_https_requesthdrs
post_runs = refl
