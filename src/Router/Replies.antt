-- ===== src/Router/Replies.antt =====
-- What a route answers, on each body.
use Prim.Native.String
use Prim.Native.String.append
use package.text.Mathlib.TextLemmas.{cons-ne-nil}
use linkspan.Base.{
  String, ◌≡◌, refl, sym, ◌∙◌, ◌≢◌, some, [], ◌∷◌, lookup-insert_self, arith, eq_iff, string_eq,
}
use linkspan.Base.Json.{text, of_map}
use linkspan.Router.Defs.{Action, Params, oversize, invalid, respond, with_id, written, str}

-- A path id that is not empty is the id that the action reads, whatever the body says.
pub with_id-str : (id : String) (p : Params) → id ≢ "" → str (with_id id p) "id" ≡ id
unfolding with_id str
with_id-str id p h = ground (arith, eq_iff id "", lookup-insert_self "id" (text id) p)

invalid-ne : (e : String) → String.◌++◌ "invalid JSON: " e ≢ ""
invalid-ne e h = cons-ne-nil _ _ (sym (append.cons "i" "nvalid JSON: " e) ∙ h)

module _ {S : Type 0} (c : Action S) (id : String) (s : S) where
  -- A body that does not decode runs no action and changes nothing: the answer is 413 for one past the
  -- limit and 400 for any other, with the error shape.
  pub respond-refuses :
      (e : String)
      → ((respond c (oversize e) id s).1 ≡ s)
        × ((respond c (invalid e) id s).1 ≡ s)
        × ((respond c (oversize e) id s).0.status ≡ 413)
        × ((respond c (invalid e) id s).0.status ≡ 400)
        × (written (respond c (invalid e) id s).0
            ≡ (400, some (of_map (("error", text (String.◌++◌ "invalid JSON: " e)) ∷ []))))
  unfolding respond written
  respond-refuses e = (
    refl,
    refl,
    refl,
    refl,
    ground (arith, eq_iff (String.◌++◌ "invalid JSON: " e) "", invalid-ne e),
  )
