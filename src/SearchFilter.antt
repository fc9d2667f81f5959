-- ===== src/SearchFilter.antt =====
-- internal/searchfilter: filters on a search. `Grammar` parses the JSON of a request into an expression
-- tree, `Compiler` reduces a tree to what the search index can enforce, `Values` normalizes the values,
-- and `Limit` the number of results.
pub mod Contracts
pub mod Values
pub mod Limit
pub mod Compiler
pub mod Grammar
pub mod Requests
mod Examples
