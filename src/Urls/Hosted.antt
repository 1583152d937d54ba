-- ===== src/Urls/Hosted.antt =====
-- korvex/_urls.py: the URL of a route on a host, and the pattern of this host.
use mathlib.Core.Path.{subst}
use korvex.Prelude.{ℕ, ◌≡◌, refl, true, false, List, [], ◌∷◌, ◌++◌, Option, some, inl, inr, arith}
use korvex.Prelude.Dict.{Dict, find, put}
use korvex.Prelude.Lists.{is_some, length}
use korvex.Prelude.Tests.{Bool-cases}
use korvex.Prelude.Text.{Text, codes, eq_text_refl, is_empty, or_empty}
use korvex.Hosts
use korvex.Hosts.{Host, Label, param, literal, is_alnum, is_label, every, match_labels}
use korvex.Binding.{Inner, Param, Objects}
use korvex.Urls.{Target, Made, made, raised, then_make, Value}
use korvex.Urls.Paths.{of_value, all_in, fits_type, annotated, path_for}
use korvex.Prelude.Tests.{==_iff}
use korvex.Urls.Labels.{LabelsFor, LeftBy, Says, host_loop-Says}
use korvex.Urls.Links.{
  Netloc, label_text, add_label, host_loop, scheme_for, dot_join, with_port, port_of, is_host,
  with_netloc, url_at, url_for, pop,
}
use korvex.Hosts.{labels_of}

module _ {V : Type 0} (objects : Objects V) where
  -- The labels fit the host's pattern.
  abbrev Fits : List Label → Made Netloc → Type 0
  Fits ls (made n) =
      (length n.labels ≡ length ls)
      × ((d : Dict Text) → is_some (match_labels ls n.labels d) ≡ true)
  Fits ls (raised p) = Unit

  abbrev IsLabel : Made Text → Type 0
  IsLabel (made s) = is_empty s ≡ false
  IsLabel (raised p) = Unit

  label_text-IsLabel :
      (types : Dict Inner) (name s : Text) → IsLabel (label_text objects types name s)
  unfolding label_text is_label
  label_text-IsLabel types name [] = tt
  label_text-IsLabel types name (c ∷ s) = elim (Bool-cases (is_label (c ∷ s))) [
    | inl e ↦ elim (Bool-cases (fits_type objects (find name types) (c ∷ s))) [
      | inl k ↦ rw (e, k, IsLabel) refl
      | inr k ↦ rw (e, k, IsLabel) tt
    ]
    | inr e ↦ rw (e, IsLabel) tt
  ]

  then_make-IsLabel :
      (types : Dict Inner) (name : Text) (s : Made Text)
      → IsLabel (then_make s (label_text objects types name))
  then_make-IsLabel types name (made s) = label_text-IsLabel types name s
  then_make-IsLabel types name (raised p) = tt

  add_literal-Fits :
      (s : Text) (ls : List Label) (n : Made Netloc)
      → Fits ls n
      → Fits (literal s ∷ ls) (then_make n (add_label objects s))
  unfolding match_labels
  add_literal-Fits s ls (made n) (len, h) = (omega (arith, len), λ d. rw (eq_text_refl s) (h d))
  add_literal-Fits s ls (raised p) h = tt

  add_param-Fits :
      (name s : Text) (ls : List Label) (n : Made Netloc)
      → is_empty s ≡ false
      → Fits ls n
      → Fits (param name ∷ ls) (then_make n (add_label objects s))
  unfolding match_labels
  add_param-Fits name s ls (made n) e (len, h) = (omega (arith, len), λ d. rw e (h (put name s d)))
  add_param-Fits name s ls (raised p) e h = tt

  then_param-Fits :
      (name : Text) (s : Made Text) (ls : List Label) (rest : Made Netloc)
      → IsLabel s
      → Fits ls rest
      → Fits (param name ∷ ls) (then_make s (λ s. then_make rest (add_label objects s)))
  then_param-Fits name (made s) ls rest e h = add_param-Fits name s ls rest e h
  then_param-Fits name (raised p) ls rest e h = tt

  host_loop-Fits :
      (types : Dict Inner) (ls : List Label) (params : Dict Value)
      → Fits ls (host_loop objects types ls params)
  unfolding host_loop match_labels
  host_loop-Fits types [] params = (refl, λ d. refl)
  host_loop-Fits types (literal s ∷ ls) params =
      add_literal-Fits s ls (host_loop objects types ls params) (host_loop-Fits types ls params)
  host_loop-Fits types (param name ∷ ls) params =
      then_param-Fits name (then_make (of_value (find name params)) (label_text objects types name))
        ls (host_loop objects types ls (pop name params))
        (then_make-IsLabel types name (of_value (find name params)))
        (host_loop-Fits types ls (pop name params))

  module _ (quote : Text → Text → Text) (match : ℕ → Text → Text → Option Text)
      (scheme header : Text) (t : Target) (everything : Option (List (Param V))) (host : Host) where
    pub record IsLink (params : Dict Value) (u : Text) : Type 0 where
      pub netloc : Netloc
      pub path : Text
      pub fits : is_some (Hosts.match host netloc.labels) ≡ true
      pub labels_for : LabelsFor params host.labels netloc.labels
      pub left : LeftBy host.labels params netloc.params
      pub made_path : path_for objects quote match t everything netloc.params ≡ made path
      pub is_url :
          u
          ≡ scheme_for t.websocket scheme
            ++ (codes "://" ++ ((dot_join netloc.labels ++ with_port (port_of header)) ++ path))

    abbrev LinkOf : Dict Value → Made Text → Type 0
    LinkOf params (made u) = IsLink params u
    LinkOf params (raised p) = Unit

    path-LinkOf :
        (params : Dict Value) (n : Netloc) (p : Made Text)
        → is_some (Hosts.match host n.labels) ≡ true
        → Says objects params host.labels (made n)
        → path_for objects quote match t everything n.params ≡ p
        → LinkOf params (
            then_make p (λ p. made (
              scheme_for t.websocket scheme
              ++ (codes "://" ++ ((dot_join n.labels ++ with_port (port_of header)) ++ p)))))
    path-LinkOf params n (made p) h (labels, left) e = record {
      netloc = n;
      path = p;
      fits = h;
      labels_for = labels;
      left = left;
      made_path = e;
      is_url = refl;
    }
    path-LinkOf params n (raised p) h says e = tt

    netloc-LinkOf :
        (params : Dict Value) (n : Made Netloc)
        → Fits host.labels n
        → Says objects params host.labels n
        → LinkOf params (
            then_make n (λ n.
              with_netloc objects quote match
                (scheme_for t.websocket scheme)
                (dot_join n.labels ++ with_port (port_of header))
                t
                everything
                n.params))
    unfolding Hosts.match
    netloc-LinkOf params (made n) (len, h) says =
        path-LinkOf params n (path_for objects quote match t everything n.params)
          (rw ((==_iff (length n.labels) (length host.labels)).1 len) (h [])) says refl
    netloc-LinkOf params (raised p) h says = tt

    url_at-LinkOf :
        (params : Dict Value)
        → LinkOf params (url_at objects quote match scheme header t everything (some host) params)
    url_at-LinkOf params = elim (Bool-cases (all_in (Hosts.params_of host.labels) params)) [
      | inl e ↦
          rw (e, LinkOf)
            (netloc-LinkOf params
              (host_loop objects (annotated objects everything) host.labels params)
              (host_loop-Fits (annotated objects everything) host.labels params)
              (host_loop-Says objects (annotated objects everything) host.labels params))
      | inr e ↦ rw (e, LinkOf) tt
    ]

    url_for-LinkOf :
        (h : Option Text) (params : Dict Value)
        → or_empty h ≡ header
        → t.host ≡ some host
        → LinkOf params (url_for objects quote match scheme h t everything params)
    unfolding url_for
    url_for-LinkOf h params same on_host = elim (Bool-cases (is_host (or_empty h))) [
      | inl e ↦ rw (e, LinkOf) (rw (on_host, same) (url_at-LinkOf params))
      | inr e ↦ rw (e, LinkOf) tt
    ]

    -- The URL that `url_for` returns for a route on a host consists of the scheme, of one label for each
    -- of the host's pattern, with the port of the request's Host header, and of the path that `path_for`
    -- returns for the parameters that the pattern does not name. A literal label is the pattern's and
    -- another the text of the parameter it names, so that the labels match the pattern.
    pub url_for-IsLink :
        (params : Dict Value) (u : Text)
        → t.host ≡ some host
        → url_for objects quote match scheme (some header) t everything params ≡ made u
        → IsLink params u
    url_for-IsLink params u on_host e =
        subst (LinkOf params) e (url_for-LinkOf (some header) params refl on_host)
