-- ===== src/Worker/Errors.antt =====
-- sendErrorMessage of proxy_server_with_cache.c.
use multi_threaded_proxy_ser.Base.{
  ℕ, Option, none, some, ◌++◌, Bytes, bytes, ◌==◌, if◌then◌else◌, take,
}

abbrev pub error_400 : Bytes → Bytes
error_400 date =
    bytes "HTTP/1.1 400 Bad Request\r\n"
    ++ (bytes "Content-Length: 95\r\n"
        ++ (bytes "Connection: keep-alive\r\n"
            ++ (bytes "Content-Type: text/html\r\n"
                ++ (bytes "Date: "
                    ++ (date
                        ++ (bytes "\r\nServer: VaibhavN/14785\r\n\r\n"
                            ++ (bytes "<HTML><HEAD><TITLE>400 Bad Request</TITLE></HEAD>\n"
                                ++ (bytes "<BODY><H1>400 Bad Rqeuest</H1>\n"
                                    ++ (bytes "</BODY></HTML>")))))))))

abbrev pub error_403 : Bytes → Bytes
error_403 date =
    bytes "HTTP/1.1 403 Forbidden\r\n"
    ++ (bytes "Content-Length: 112\r\n"
        ++ (bytes "Content-Type: text/html\r\n"
            ++ (bytes "Connection: keep-alive\r\n"
                ++ (bytes "Date: "
                    ++ (date
                        ++ (bytes "\r\nServer: VaibhavN/14785\r\n\r\n"
                            ++ (bytes "<HTML><HEAD><TITLE>403 Forbidden</TITLE></HEAD>\n"
                                ++ (bytes "<BODY><H1>403 Forbidden</H1><br>Permission Denied\n"
                                    ++ (bytes "</BODY></HTML>")))))))))

abbrev pub error_404 : Bytes → Bytes
error_404 date =
    bytes "HTTP/1.1 404 Not Found\r\n"
    ++ (bytes "Content-Length: 91\r\n"
        ++ (bytes "Content-Type: text/html\r\n"
            ++ (bytes "Connection: keep-alive\r\n"
                ++ (bytes "Date: "
                    ++ (date
                        ++ (bytes "\r\nServer: VaibhavN/14785\r\n\r\n"
                            ++ (bytes "<HTML><HEAD><TITLE>404 Not Found</TITLE></HEAD>\n"
                                ++ (bytes "<BODY><H1>404 Not Found</H1>\n"
                                    ++ (bytes "</BODY></HTML>")))))))))

abbrev pub error_500 : Bytes → Bytes
error_500 date =
    bytes "HTTP/1.1 500 Internal Server Error\r\n"
    ++ (bytes "Content-Length: 115\r\n"
        ++ (bytes "Connection: keep-alive\r\n"
            ++ (bytes "Content-Type: text/html\r\n"
                ++ (bytes "Date: "
                    ++ (date
                        ++ (bytes "\r\nServer: VaibhavN/14785\r\n\r\n"
                            ++ (bytes
                                  "<HTML><HEAD><TITLE>500 Internal Server Error</TITLE></HEAD>\n"
                                ++ (bytes "<BODY><H1>500 Internal Server Error</H1>\n"
                                    ++ (bytes "</BODY></HTML>")))))))))

abbrev pub error_501 : Bytes → Bytes
error_501 date =
    bytes "HTTP/1.1 501 Not Implemented\r\n"
    ++ (bytes "Content-Length: 103\r\n"
        ++ (bytes "Connection: keep-alive\r\n"
            ++ (bytes "Content-Type: text/html\r\n"
                ++ (bytes "Date: "
                    ++ (date
                        ++ (bytes "\r\nServer: VaibhavN/14785\r\n\r\n"
                            ++ (bytes "<HTML><HEAD><TITLE>404 Not Implemented</TITLE></HEAD>\n"
                                ++ (bytes "<BODY><H1>501 Not Implemented</H1>\n"
                                    ++ (bytes "</BODY></HTML>")))))))))

abbrev pub error_505 : Bytes → Bytes
error_505 date =
    bytes "HTTP/1.1 505 HTTP Version Not Supported\r\n"
    ++ (bytes "Content-Length: 125\r\n"
        ++ (bytes "Connection: keep-alive\r\n"
            ++ (bytes "Content-Type: text/html\r\n"
                ++ (bytes "Date: "
                    ++ (date
                        ++ (bytes "\r\nServer: VaibhavN/14785\r\n\r\n"
                            ++ (bytes
                                  "<HTML><HEAD><TITLE>505 HTTP Version Not Supported</TITLE></HEAD>\n"
                                ++ (bytes "<BODY><H1>505 HTTP Version Not Supported</H1>\n"
                                    ++ (bytes "</BODY></HTML>")))))))))

-- `snprintf(str, sizeof(str), ...)`
abbrev pub truncated : Bytes → Bytes
truncated s = take 1023 s

-- What is sent for a status code, or `none` for the result -1. `date` is what strftime prints; the
-- result of `send` is not looked at.
unfoldable pub send_error_message : ℕ → Bytes → Option Bytes
send_error_message status_code date =
    if status_code == 400
    then some (truncated (error_400 date))
    else if status_code == 403
    then some (truncated (error_403 date))
    else if status_code == 404
    then some (truncated (error_404 date))
    else if status_code == 500
    then some (truncated (error_500 date))
    else if status_code == 501
    then some (truncated (error_501 date))
    else if status_code == 505
    then some (truncated (error_505 date))
    else none
