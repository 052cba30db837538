-- ===== src/Web/Head.antt =====
-- web.c: a request with HEAD gets what one with GET gets, without the file.
use mathlib.Core.Path.{subst}
use xteam.Prelude.{
  ℕ, zero, suc, ◌<◌, ◌≡◌, refl, ap, ◌∙◌, true, false, some, [], ◌∷◌, ◌++◌, arith, leb, length,
}
use xteam.Web.Bytes.{Bytes, codes, same, until_nul, lower, fit}
use xteam.Web.Request.{is_support_method, parse_uri}
use xteam.Web.Reply.{Stat, Site, wrote, server_static, static_header}
use xteam.Web.Serve.{request_words, do_static, doit}

length-fit : (n : ℕ) (s : Bytes) → length (fit n s) ≡ n
unfolding fit
length-fit zero s = refl
length-fit (suc n) [] = ground (arith, length-fit n [])
length-fit (suc n) (x ∷ s) = ground (arith, length-fit n s)

module _ (site : Site) (before fuel : ℕ) where
  -- A request for a static file, of which `stat` tells something.
  static-reply :
      (received : Bytes) (sbuf : Stat)
      → let (method, uri) = request_words (until_nul received) in
        let filename = (parse_uri before uri).filename in
        leb (length (until_nul received)) 3 ≡ false
        → is_support_method method ≡ true
        → (parse_uri before uri).is_static ≡ true
        → site.stat filename ≡ some sbuf
        → doit site before fuel received ≡ some (do_static site before fuel method filename sbuf)
  unfolding doit
  static-reply received sbuf n m st f = rw (n, m, f, st) refl

  words-reply :
      (received method uri : Bytes) (sbuf : Stat)
      → request_words (until_nul received) ≡ (method, uri)
      → leb (length (until_nul received)) 3 ≡ false
      → is_support_method method ≡ true
      → (parse_uri before uri).is_static ≡ true
      → site.stat (parse_uri before uri).filename ≡ some sbuf
      → doit site before fuel received
        ≡ some (do_static site before fuel method (parse_uri before uri).filename sbuf)
  words-reply received method uri sbuf w n =
      subst
        (λ (p : Bytes × Bytes).
          is_support_method p.0 ≡ true
          → (parse_uri before p.1).is_static ≡ true
          → site.stat (parse_uri before p.1).filename ≡ some sbuf
          → doit site before fuel received
            ≡ some (do_static site before fuel p.0 (parse_uri before p.1).filename sbuf))
        w (static-reply received sbuf n)

  do_static-head :
      (filename : Bytes) (sbuf : Stat)
      → sbuf.regular ≡ true
      → sbuf.readable ≡ true
      → 0 < sbuf.size
      → do_static site before fuel (codes "HEAD") filename sbuf
        ≡ wrote (static_header site filename sbuf.size)
  unfolding do_static server_static same lower
  do_static-head filename sbuf r s p = ground arith

  do_static-get :
      (filename : Bytes) (sbuf : Stat)
      → sbuf.regular ≡ true
      → sbuf.readable ≡ true
      → 0 < sbuf.size
      → do_static site before fuel (codes "GET") filename sbuf
        ≡ wrote (static_header site filename sbuf.size ++ fit sbuf.size (site.content filename))
  unfolding do_static server_static same lower
  do_static-get filename sbuf r s p = ground arith

  -- For a regular static file that may be read and is not empty, a request of more than three bytes with
  -- HEAD gets the header alone, and a request with GET for the same path gets the same header,
  -- followed by as many bytes as the size of the file.
  pub doit-head :
      (head get uri : Bytes) (sbuf : Stat)
      → request_words (until_nul head) ≡ (codes "HEAD", uri)
      → request_words (until_nul get) ≡ (codes "GET", uri)
      → leb (length (until_nul head)) 3 ≡ false
      → leb (length (until_nul get)) 3 ≡ false
      → (parse_uri before uri).is_static ≡ true
      → site.stat (parse_uri before uri).filename ≡ some sbuf
      → sbuf.regular ≡ true
      → sbuf.readable ≡ true
      → 0 < sbuf.size
      → (header : Bytes) × (body : Bytes) × (doit site before fuel head ≡ some (wrote header))
        × (doit site before fuel get ≡ some (wrote (header ++ body)))
        × (length body ≡ sbuf.size)
  unfolding is_support_method same
  doit-head head get uri sbuf wh wg nh ng st f r s p =
      let filename = (parse_uri before uri).filename in
      let file = fit sbuf.size (site.content filename) in
      (
        static_header site filename sbuf.size,
        file,
        words-reply head (codes "HEAD") uri sbuf wh nh refl st f
            ∙ ap some (do_static-head filename sbuf r s p),
        words-reply get (codes "GET") uri sbuf wg ng refl st f
            ∙ ap some (do_static-get filename sbuf r s p),
        length-fit sbuf.size (site.content filename),
      )
