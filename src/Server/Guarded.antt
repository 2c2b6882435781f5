-- ===== src/Server/Guarded.antt =====
-- The response writer of internal/api under the headers that internal/api/middleware.go sets.
use glint.Common.{ℕ, Option, none, some, ◌++◌, ◌≡◌, refl, ◌∙◌}
use glint.Common.Text.{Str, str, str_eq}
use glint.Common.Dict.{Dict, insert, erase, lookup, lookup-insert, lookup-erase, str_key}
use glint.Sparkline.{Response, written, bad_request}
use glint.Server.{
  Handler, Head, Outcome, Writer, returned, panicked, blank, content_security_policy, http_error,
  not_found, recovery_middleware, response, server_error, set_header, write, write_header,
  delete_header,
}
use glint.Server.Handlers.{Rendered, rendered, failed, panics, buffered, respond}

-- The headers that every response should have.
pub record IsSecured (h : Dict Str Str) : Type 0 where
  pub options : lookup (str "X-Content-Type-Options") h ≡ some (str "nosniff")
  pub frame : lookup (str "X-Frame-Options") h ≡ some (str "DENY")
  pub policy : lookup (str "Content-Security-Policy") h ≡ some content_security_policy
  pub referrer : lookup (str "Referrer-Policy") h ≡ some (str "strict-origin-when-cross-origin")
  pub cached : lookup (str "Cache-Control") h ≡ some (str "no-store")

insert_type-IsSecured :
    (v : Str) (h : Dict Str Str) → IsSecured h → IsSecured (insert (str "Content-Type") v h)
unfolding str str_eq
insert_type-IsSecured v h k = record {
  options = lookup-insert _ _ v h ∙ k.options;
  frame = lookup-insert _ _ v h ∙ k.frame;
  policy = lookup-insert _ _ v h ∙ k.policy;
  referrer = lookup-insert _ _ v h ∙ k.referrer;
  cached = lookup-insert _ _ v h ∙ k.cached;
}

erase_length-IsSecured :
    (h : Dict Str Str) → IsSecured h → IsSecured (erase (str "Content-Length") h)
unfolding str str_eq
erase_length-IsSecured h k = record {
  options = lookup-erase _ _ h ∙ k.options;
  frame = lookup-erase _ _ h ∙ k.frame;
  policy = lookup-erase _ _ h ∙ k.policy;
  referrer = lookup-erase _ _ h ∙ k.referrer;
  cached = lookup-erase _ _ h ∙ k.cached;
}

insert_options-IsSecured :
    (h : Dict Str Str)
    → IsSecured h
    → IsSecured (insert (str "X-Content-Type-Options") (str "nosniff") h)
unfolding str str_eq
insert_options-IsSecured h k = record {
  options = lookup-insert _ _ _ h;
  frame = lookup-insert _ _ _ h ∙ k.frame;
  policy = lookup-insert _ _ _ h ∙ k.policy;
  referrer = lookup-insert _ _ _ h ∙ k.referrer;
  cached = lookup-insert _ _ _ h ∙ k.cached;
}

-- Of a head that has been sent.
abbrev pub Sealed : Option Head → Type 0
Sealed none = Unit
Sealed (some head) = IsSecured head.headers

-- The header map has the headers, and what has been sent has them.
pub record Guarded (w : Writer) : Type 0 where
  pub kept : IsSecured w.header
  pub sealed : Sealed w.sent

write_header-Guarded : (code : ℕ) (w : Writer) → Guarded w → Guarded (write_header code w)
unfolding write_header
write_header-Guarded code w g = from w.sent refl
  where
    from : (o : Option Head) → w.sent ≡ o → Guarded (write_header code w)
    from none e = rw (e, write_header) (record { kept = g.kept; sealed = g.kept })
    from (some head) e = rw (e, write_header) g

write-Guarded : (text : Str) (w : Writer) → Guarded w → Guarded (write text w)
unfolding write
write-Guarded text w g =
    let g' = write_header-Guarded 200 w g in record { kept = g'.kept; sealed = g'.sealed }

http_error-Guarded :
    (text : Str) (code : ℕ) (w : Writer) → Guarded w → Guarded (http_error text code w)
unfolding http_error set_header delete_header
http_error-Guarded text code w g = write-Guarded (text ++ str "\n") _ (
    write_header-Guarded code _ (record {
      kept =
          insert_options-IsSecured _
            (insert_type-IsSecured _ _ (erase_length-IsSecured w.header g.kept));
      sealed = g.sealed;
    }))

-- Of both ways to end.
abbrev pub Good : Outcome → Type 0
Good (returned w) = Guarded w
Good (panicked w) = Guarded w

abbrev pub IsSafe : Handler → Type 0
IsSafe h = (w : Writer) → Guarded w → Good (h w)

pub buffered-IsSafe : (content_type : Str) (o : Rendered) → IsSafe (buffered content_type o)
unfolding buffered server_error set_header
buffered-IsSafe content_type (rendered text) w g =
    write-Guarded text _
      (record { kept = insert_type-IsSecured content_type w.header g.kept; sealed = g.sealed })
buffered-IsSafe content_type failed w g = http_error-Guarded _ 500 w g
buffered-IsSafe content_type panics w g = g

pub not_found-Guarded : (w : Writer) → Guarded w → Guarded (not_found w)
unfolding not_found
not_found-Guarded w g = http_error-Guarded _ 404 w g

pub respond-IsSafe :
    {A : Type 0} (f : A → Handler) (o : Response A)
    → ((a : A) → IsSafe (f a))
    → IsSafe (respond f o)
unfolding respond server_error
respond-IsSafe f (written a) k = k a
respond-IsSafe f Response.server_error k = λ w g. http_error-Guarded _ 500 w g
respond-IsSafe f bad_request k = λ w g. http_error-Guarded _ 400 w g

pub recovered :
    (h : Handler) (w : Writer)
    → IsSafe h
    → Guarded w
    → (w' : Writer) × (recovery_middleware h w ≡ returned w') × Guarded w'
unfolding recovery_middleware server_error
recovered h w k g = from (h w) refl (k w g)
  where
    from :
        (o : Outcome)
        → h w ≡ o
        → Good o
        → (w' : Writer) × (recovery_middleware h w ≡ returned w') × Guarded w'
    from (returned w') e g' = (w', rw (e, recovery_middleware) refl, g')
    from (panicked w') e g' =
        (server_error w', rw (e, recovery_middleware) refl, http_error-Guarded _ 500 w' g')

-- A handler that is returned from has a response, with what has been sealed.
pub answered-IsSecured :
    (w : Writer)
    → Guarded w
    → (head : Head) × (body : Str) × (response (returned w) ≡ some (head, body))
      × IsSecured head.headers
unfolding response write_header
answered-IsSecured w g = from w.sent refl
  where
    from :
        (o : Option Head)
        → w.sent ≡ o
        → (head : Head) × (body : Str) × (response (returned w) ≡ some (head, body))
          × IsSecured head.headers
    from none e = (
      record { status = 200; headers = w.header },
      w.body,
      rw (e, response, write_header) refl,
      g.kept,
    )
    from (some head) e =
        (head, w.body, rw (e, response, write_header) (rw e refl), rw e at g.sealed)

-- The writer that the middleware hands on.
unfoldable pub shielded : Writer
unfolding set_header
shielded =
    let w1 = set_header (str "X-Content-Type-Options") (str "nosniff") blank in
    let w2 = set_header (str "X-Frame-Options") (str "DENY") w1 in
    let w3 = set_header (str "Content-Security-Policy") content_security_policy w2 in
    let w4 = set_header (str "Referrer-Policy") (str "strict-origin-when-cross-origin") w3 in
    set_header (str "Cache-Control") (str "no-store") w4

pub shielded-Guarded : Guarded shielded
unfolding shielded lookup insert str str_eq
shielded-Guarded = record {
  kept = record { options = refl; frame = refl; policy = refl; referrer = refl; cached = refl };
  sealed = tt;
}
