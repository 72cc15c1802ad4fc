-- ===== src/Install/Fetching.antt =====
-- A fetch publishes the whole file, or nothing.
use text.Mathlib.TextLemmas.{cons-ne-nil, append-nil, append_cancel_left}
use linkspan.Base.{
  String, ◌≡◌, refl, ◌≢◌, sym, ap, ◌∙◌, inl, inr, Option, none, some, Map, lookup, insert, delete,
  lookup-insert_self, lookup-insert_ne, lookup-delete_self, lookup-delete_ne, Result, ok, err, ◌==◌,
  string_eq, nat_eq, is_some, Bool-cases, nat_beq_iff,
}
use linkspan.Install.Defs.{
  Response, Answers, part_of, rename, publish, write_part, save, receive, download, fetch,
}

part-ne : (dst : String) → dst ≢ part_of dst
unfolding part_of
part-ne dst e = cons-ne-nil _ _ (append_cancel_left dst ".part" "" (sym e ∙ sym (append-nil dst)))

module _ (dst path : String) (files : Map String) (apart : path ≢ part_of dst) where
  back : part_of dst ≢ path
  back e = apart (sym e)

  -- Taking the .part file away again.
  cleared :
      (content : String)
      → lookup path (delete (part_of dst) (insert (part_of dst) content files)) ≡ lookup path files
  cleared content =
      lookup-delete_ne (part_of dst) path _ back
      ∙ lookup-insert_ne (part_of dst) path content files back

  -- Where the fetch is refused, a path but the .part one is as it was.
  write_part-fails :
      (w : Option (String × String)) (renamed : Option String) (content e : String)
      → (write_part w renamed content dst files).0 ≡ some e
      → lookup path (write_part w renamed content dst files).1 ≡ lookup path files
  unfolding write_part publish
  write_part-fails (some (x, begun)) renamed content e p = cleared begun
  write_part-fails none (some x) content e p = cleared content
  write_part-fails none none content e p = cc

  save-fails :
      (a : Answers) (body : Result String) (src e : String)
      → (save a body src dst files).0 ≡ some e
      → lookup path (save a body src dst files).1 ≡ lookup path files
  unfolding save
  save-fails a (err x) src e p = refl
  save-fails a (ok content) src e p = write_part-fails a.write a.rename content e p

  receive-fails :
      (a : Answers) (response : Result Response) (src e : String)
      → (receive a response src dst files).0 ≡ some e
      → lookup path (receive a response src dst files).1 ≡ lookup path files
  unfolding receive
  receive-fails a (err x) src e p = refl
  receive-fails a (ok r) src e p = elim (Bool-cases (r.status == 200)) [
    | inl fine ↦ rw fine (save-fails a r.body src e (rw fine at p))
    | inr other ↦ rw other
  ]

  download-fails :
      (a : Answers) (made : Option String) (src e : String)
      → (download a made src dst files).0 ≡ some e
      → lookup path (download a made src dst files).1 ≡ lookup path files
  unfolding download
  download-fails a (some x) src e p = refl
  download-fails a none src e p = receive-fails a a.response src e p

  -- A Fetch that fails leaves each path but the destination's .part one as it was: it publishes nothing.
  pub fetch-fails :
      (a : Answers) (src e : String)
      → (fetch a dst src files).0 ≡ some e
      → lookup path (fetch a dst src files).1 ≡ lookup path files
  unfolding fetch
  fetch-fails a src e p = elim (Bool-cases (is_some (lookup dst files))) [
    | inl present ↦ rw present
    | inr absent ↦ rw absent (download-fails a a.mkdir src e (rw absent at p))
  ]

-- What a Fetch has left that downloaded: the whole body of a 200 response at the destination, and no .part
-- file.
pub record Published (a : Answers) (dst : String) (files : Map String) : Type 0 where
  pub response : Response
  pub content : String
  pub answered : a.response ≡ ok response
  pub fine : response.status ≡ 200
  pub read : response.body ≡ ok content
  pub found : lookup dst files ≡ some content
  pub cleaned : lookup (part_of dst) files ≡ none

rename-found :
    (from to content : String) (files : Map String)
    → lookup from files ≡ some content
    → rename from to files ≡ insert to content (delete from files)
unfolding rename
rename-found from to content files e = rw (rename, e)

module _ (dst : String) (files : Map String) where
  publish-found :
      (content : String)
      → lookup dst (publish none dst (insert (part_of dst) content files)).1 ≡ some content
  unfolding publish
  publish-found content =
      let there = lookup-insert_self (part_of dst) content files in
      let kept =
        lookup-delete_ne (part_of dst) dst
          (insert dst content (delete (part_of dst) (insert (part_of dst) content files)))
          (λ e. part-ne dst (sym e)) in
      ap (λ m. lookup dst (delete (part_of dst) m)) (rename-found (part_of dst) dst content _ there)
      ∙ (kept ∙ lookup-insert_self dst content _)

  publish-cleaned :
      (content : String)
      → lookup (part_of dst) (publish none dst (insert (part_of dst) content files)).1 ≡ none
  unfolding publish
  publish-cleaned content = lookup-delete_self (part_of dst) _

  write_part-publishes :
      (w : Option (String × String)) (renamed : Option String) (content : String)
      → (write_part w renamed content dst files).0 ≡ none
      → (lookup dst (write_part w renamed content dst files).1 ≡ some content)
        × (lookup (part_of dst) (write_part w renamed content dst files).1 ≡ none)
  unfolding write_part
  write_part-publishes (some x) renamed content p = cc
  write_part-publishes none (some x) content p = unfold publish in cc
  write_part-publishes none none content p = (publish-found content, publish-cleaned content)

  save-publishes :
      (a : Answers) (body : Result String) (src : String)
      → (save a body src dst files).0 ≡ none
      → (content : String) × (body ≡ ok content)
        × (lookup dst (save a body src dst files).1 ≡ some content)
        × (lookup (part_of dst) (save a body src dst files).1 ≡ none)
  unfolding save
  save-publishes a (err x) src p = cc
  save-publishes a (ok content) src p =
      let (found, cleaned) = write_part-publishes a.write a.rename content p in
      (content, refl, found, cleaned)

  receive-publishes :
      (a : Answers) (response : Result Response) (src : String)
      → a.response ≡ response
      → (receive a response src dst files).0 ≡ none
      → Published a dst (receive a response src dst files).1
  unfolding receive
  receive-publishes a (err x) src q p = cc
  receive-publishes a (ok r) src q p = elim (Bool-cases (r.status == 200)) [
    | inl fine ↦
        let (content, read, found, cleaned) = save-publishes a r.body src (rw fine at p) in
        rw fine (record {
          response = r;
          content = content;
          answered = q;
          fine = (nat_beq_iff r.status 200).0 fine;
          read = read;
          found = found;
          cleaned = cleaned;
        })
    | inr other ↦ cc (rw other at p)
  ]

  download-publishes :
      (a : Answers) (made : Option String) (src : String)
      → (download a made src dst files).0 ≡ none
      → Published a dst (download a made src dst files).1
  unfolding download
  download-publishes a (some x) src p = cc
  download-publishes a none src p = receive-publishes a a.response src refl p

  -- A Fetch of a destination that is not there, without an error, leaves the whole body of a 200 response
  -- at the destination, and no .part file.
  pub fetch-Published :
      (a : Answers) (src : String)
      → lookup dst files ≡ none
      → (fetch a dst src files).0 ≡ none
      → Published a dst (fetch a dst src files).1
  unfolding fetch
  fetch-Published a src absent p = rw absent (download-publishes a a.mkdir src (rw absent at p))
