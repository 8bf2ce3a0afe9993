-- ===== src/Resp/Status.antt =====
-- lib/resp.c `httpdefstatus`.
use ashd.Base.{◌==◌, if◌then◌else◌, Bytes, codes, ℕ}

-- The message for a status code that has none.
unfoldable pub httpdefstatus : ℕ → Bytes
httpdefstatus code =
    if code == 200
    then codes "OK"
    else if code == 201
    then codes "Created"
    else if code == 202
    then codes "Accepted"
    else if code == 204
    then codes "No Content"
    else if code == 300
    then codes "Multiple Choices"
    else if code == 301
    then codes "Moved Permanently"
    else if code == 302
    then codes "Found"
    else if code == 303
    then codes "See Other"
    else if code == 304
    then codes "Not Modified"
    else if code == 307
    then codes "Moved Temporarily"
    else if code == 400
    then codes "Bad Request"
    else if code == 401
    then codes "Unauthorized"
    else if code == 403
    then codes "Forbidden"
    else if code == 404
    then codes "Not Found"
    else if code == 500
    then codes "Internal Server Error"
    else if code == 501
    then codes "Not Implemented"
    else if code == 503
    then codes "Service Unavailable"
    else codes "Unknown status"
