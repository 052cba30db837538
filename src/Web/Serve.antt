-- ===== src/Web/Serve.antt =====
-- web.c: `doit`, a request from its bytes to its reply.
use xteam.Prelude.{ℕ, not, ◌||◌, Option, none, some, [], leb, if◌then◌else◌, length}
use xteam.Web.Bytes.{Bytes, codes, same, until_nul, skip_spaces, take_word}
use xteam.Web.Request.{is_support_method, Target, parse_uri, post_https_requesthdrs}
use xteam.Web.Reply.{Stat, Site, Reply, wrote, server_static, get_dynamic, post_dynamic, clienterr}

-- `sscanf(buf, "%s %s %s", method, uri, version)`, of which the version is not used.
unfoldable pub request_words : Bytes → Bytes × Bytes
unfolding skip_spaces take_word
request_words buf =
    let (method, rest) = take_word (skip_spaces buf) in
    let (uri, rest') = take_word (skip_spaces rest) in (method, uri)

module _ (site : Site) (before fuel : ℕ) where
  -- The part of `doit` for a static file.
  unfoldable pub do_static : Bytes → Bytes → Stat → Reply
  unfolding clienterr server_static
  do_static method filename sbuf =
      if not sbuf.regular || not sbuf.readable
      then clienterr site filename (codes "403") (codes "Forbidden")
          (codes "Tiny could not read the file")
      else server_static site filename sbuf.size method

  -- The part for a CGI program; the answer to another method is nothing. `none` where the headers are
  -- still being read.
  unfoldable pub do_dynamic : Bytes → Target → Bytes → Stat → Option Reply
  unfolding clienterr get_dynamic post_dynamic same post_https_requesthdrs
  do_dynamic method target buf sbuf =
      if not sbuf.regular || not sbuf.executable
      then some (
          clienterr site target.filename (codes "403") (codes "Forbidden")
            (codes "Tiny could not run the CGI program"))
      else if same method (codes "GET")
      then some (get_dynamic site target.filename target.cgiargs)
      else if same method (codes "POST")
      then elim (post_https_requesthdrs fuel buf target.cgiargs) [
        | none ↦ none
        | some (n, data') ↦ some (post_dynamic site target.filename data' n)
      ]
      else some (wrote [])

  -- `doit`, from what `SSL_read` puts into the array.
  unfoldable pub doit : Bytes → Option Reply
  unfolding until_nul request_words is_support_method parse_uri clienterr do_static do_dynamic
  doit received =
      let buf = until_nul received in
      let (method, uri) = request_words buf in
      let target = parse_uri before uri in
      if leb (length buf) 3
      then some (wrote [])
      else if not (is_support_method method)
      then some (
          clienterr site method (codes "501") (codes "Not Implemented")
            (codes "Tiny does not implement this method."))
      else elim (site.stat target.filename) [
        | none ↦ some (
            clienterr site target.filename (codes "404") (codes "Not Found")
              (codes "Tiny could not find this file"))
        | some sbuf ↦
            if target.is_static
            then some (do_static method target.filename sbuf)
            else do_dynamic method target buf sbuf
      ]
