-- ===== src/Web/Reply.antt =====
-- web.c: `server_static`, `get_dynamic`, `post_dynamic`, `clienterr`: what goes to the client.
use xteam.Prelude.{ℕ, Bool, Option, none, some, [], ◌++◌, map, ◌==◌, if◌then◌else◌, length}
use xteam.Web.Bytes.{Bytes, codes, same, fit, lower}
use xteam.Web.Request.{get_filetype}

-- What `stat` tells of a file.
pub record Stat : Type 0 where
  pub regular : Bool
  pub readable : Bool
  pub executable : Bool
  pub size : ℕ

-- What lies outside the server: the files, the CGI programs, and how `printf` writes a number. A
-- program gets its name, QUERY_STRING, CONTENT-LENGTH and its standard input; what it writes is read
-- to its end.
pub record Site : Type 0 where
  pub stat : Bytes → Option Stat
  pub content : Bytes → Bytes
  pub cgi : Bytes → Option Bytes → Option Bytes → Bytes → Bytes
  pub decimal : ℕ → Bytes

-- The bytes written to the connection; or an `assert` that fails, which ends the process.
pub data Reply : Type 0 where
  wrote : Bytes → Reply
  aborted : Reply

-- `strcasecmp(a, b) == 0`
abbrev pub same_nocase : Bytes → Bytes → Bool
same_nocase a b = same (map lower a) (map lower b)

module _ (site : Site) where
  -- The header of a file.
  unfoldable pub static_header : Bytes → ℕ → Bytes
  unfolding get_filetype
  static_header filename filesize =
      codes "HTTP/1.0 200 OK\r\n"
      ++ codes "Server: Tiny Web Server\r\n"
      ++ (codes "Content-length: " ++ site.decimal filesize ++ codes "\r\n")
      ++ (codes "Content-type: " ++ get_filetype filename [] ++ codes "\r\n\r\n")

  -- `server_static`; what a short file leaves of the array is NUL. `Open` and `Rio_readn` succeed, and
  -- the size of a file is below 2^31, where the conversion to int keeps it.
  unfoldable pub server_static : Bytes → ℕ → Bytes → Reply
  unfolding static_header same lower fit
  server_static filename filesize method =
      let header = static_header filename filesize in
      if filesize == 0
      then aborted
      else if same_nocase method (codes "GET")
      then wrote (header ++ fit filesize (site.content filename))
      else wrote header

  abbrev cgi_header : Bytes
  cgi_header = codes "HTTP/1.0 200 OK\r\n" ++ codes "Server: Tiny Web Server\r\n"

  -- `get_dynamic`
  unfoldable pub get_dynamic : Bytes → Bytes → Reply
  get_dynamic filename cgiargs = wrote (cgi_header ++ site.cgi filename (some cgiargs) none [])

  -- `post_dynamic`
  unfoldable pub post_dynamic : Bytes → Bytes → ℕ → Reply
  unfolding fit
  post_dynamic filename post_data content_length =
      if content_length == 0
      then aborted
      else wrote (
          cgi_header
          ++ site.cgi filename none (some (site.decimal content_length))
              (fit content_length post_data))

  unfoldable pub error_body : Bytes → Bytes → Bytes → Bytes → Bytes
  error_body cause errnum shortmsg longmsg =
      codes "<html><title>Tiny Error</title>"
      ++ codes "<body bgcolor=ffffff>\r\n"
      ++ (errnum ++ codes ": " ++ shortmsg ++ codes "\r\n")
      ++ (codes "<p>" ++ longmsg ++ codes ": " ++ cause ++ codes "\r\n")
      ++ codes "<hr><em>The Tiny Web Server</em>\r\n"

  -- `clienterr`
  unfoldable pub clienterr : Bytes → Bytes → Bytes → Bytes → Reply
  unfolding error_body
  clienterr cause errnum shortmsg longmsg =
      let body = error_body cause errnum shortmsg longmsg in
      let header =
        codes "HTTP/1.0 "
        ++ errnum
        ++ codes " "
        ++ shortmsg
        ++ codes "\r\n"
        ++ codes " Content-type: text/html\r\n"
        ++ (codes " Content-length: " ++ site.decimal (length body) ++ codes "\r\n\r\n") in
      wrote (header ++ body)
