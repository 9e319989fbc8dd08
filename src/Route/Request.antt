-- ===== src/Route/Request.antt =====
-- What a handler sees of an HTTP request. A header has one value: what `Header.Get` returns.
use burnell.Prelude.{List, [], Option, none, some}
use burnell.Text.{Text}
use burnell.Assoc.{lookup, insert}

pub record Request : Type 0 where
  pub method : Text
  pub uri : Text
  pub headers : List (Text × Text)
  pub vars : List (Text × Text)
  pub query : List (Text × Text)
  pub body : Text

abbrev or_empty : Option Text → Text
or_empty none = []
or_empty (some v) = v

unfoldable pub header_get : Request → Text → Text
header_get r name = or_empty (lookup name r.headers)

unfoldable pub header_set : Text → Text → Request → Request
header_set name v r = record r { headers = insert name v r.headers }
