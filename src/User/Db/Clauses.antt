-- ===== src/User/Db/Clauses.antt =====
-- The texts that the store builds: the order clause, and the conditions of a filter.
use spi_exata.Base.{String, ◌≡◌, ◌≢◌, ◌↔◌, true, none, List, [], ◌++◌, arith, is_some, lookup, All}
use spi_exata.Base.Errors.{Result, ok, panicked}
use spi_exata.Sdk.Page.{Page}
use spi_exata.Sdk.Sqldb.{Params}
use spi_exata.User.{Address, QueryFilter}
use spi_exata.Types.Name.{Name}
use spi_exata.User.Db.{apply_filter}
use spi_exata.User.Db.Placeholders.{placeholders}
use spi_exata.User.Db.Store.{paged, page_params, select_users, count_users}

-- applyFilter panics exactly for a filter with a start and no end.
pub apply_filter-panicked_iff :
    (show : Address → String) (f : QueryFilter) (arguments : Params) (buf : String)
    → ((m : String) × (apply_filter show f arguments buf ≡ panicked m))
      ↔ ((f.start_created_at ≢ none) × (f.end_created_at ≡ none))
unfolding apply_filter
apply_filter-panicked_iff show f arguments buf =
    ((λ h. ground arith), λ h. ("nil pointer dereference", ground arith))

-- Every placeholder of the text that is sent has an argument, where `sent` makes it of the query with its
-- condition.
abbrev pub IsBound : (String → String) → Result (Params × String) → Type 0
IsBound sent (ok (arguments, buf)) =
    All (λ p. is_some (lookup p arguments) ≡ true) (placeholders (sent buf))
IsBound sent _ = Unit

-- What Count sends, and what Query sends for a clause of order.
abbrev pub AreBound : (Address → String) → Page → QueryFilter → String → Type 0
AreBound show page f clause =
    IsBound (λ buf. buf) (apply_filter show f [] count_users)
    × IsBound (λ buf. paged buf clause) (apply_filter show f (page_params page) select_users)

-- The placeholders of the query have arguments, and so have the given names.
abbrev HasAll : List String → Result (Params × String) → Type 0
HasAll names (ok (arguments, buf)) =
    All (λ p. is_some (lookup p arguments) ≡ true) (placeholders buf ++ names)
HasAll names _ = Unit
